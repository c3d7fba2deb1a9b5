-- ===== src/Prelude/Strings.antt =====
-- Python's `str` as the list of its code points, with the methods that the program calls.
-- `upper` and `casefold` are those of ASCII: other letters are left as they are.
use Prim.Native.Nat.{ℕ, zero, suc, ◌-◌, pred, ◌+◌}
use Prim.Native.Char.{code}
use Prim.Native.String.{String}
use mathlib.Core.Path.{◌≡◌, refl}
use mathlib.Core.Logic.{◌↔◌}
use mathlib.Core.Bool.{Bool, true, false, ◌&&◌, ◌||◌}
use mathlib.Core.List.{List, [], ◌∷◌, map}
use native.Mathlib.Omega.{arith}
use crypto_hawk.Prelude.Tests.{leb, ◌==◌, if◌then◌else◌}
use crypto_hawk.Prelude.Lists.{length}

abbrev pub Text : Type 0
Text = List ℕ

abbrev pub codes : String → Text
codes String.[] = []
codes (String.◌∷◌ c s) = code c ∷ codes s

unfoldable pub text_eq : Text → Text → Bool
text_eq [] [] = true
text_eq [] (d ∷ t) = false
text_eq (c ∷ s) [] = false
text_eq (c ∷ s) (d ∷ t) = (c == d) && text_eq s t

-- `str.isspace` of one character
unfoldable pub is_space : ℕ → Bool
is_space c =
    leb 9 c && leb c 13
    || leb 28 c && leb c 32
    || c == 0x85
    || c == 0xa0
    || c == 0x1680
    || leb 0x2000 c && leb c 0x200a
    || c == 0x2028
    || c == 0x2029
    || c == 0x202f
    || c == 0x205f
    || c == 0x3000

unfoldable pub lstrip : Text → Text
lstrip [] = []
lstrip (c ∷ s) = if is_space c then lstrip s else c ∷ s

-- What stands in front of a stripped rest: a space before nothing is dropped.
unfoldable pub keep_unless_blank : ℕ → Text → Text
keep_unless_blank c [] = if is_space c then [] else c ∷ []
keep_unless_blank c (d ∷ s) = c ∷ d ∷ s

unfoldable pub rstrip : Text → Text
rstrip [] = []
rstrip (c ∷ s) = keep_unless_blank c (rstrip s)

unfoldable pub strip : Text → Text
strip s = rstrip (lstrip s)

unfoldable pub upper_char : ℕ → ℕ
upper_char c = if leb b'a' c && leb c b'z' then c - 32 else c

unfoldable pub upper : Text → Text
upper = map upper_char

unfoldable pub lower_char : ℕ → ℕ
lower_char c = if leb b'A' c && leb c b'Z' then c + 32 else c

unfoldable pub lower : Text → Text
lower = map lower_char

unfoldable pub starts_with : Text → Text → Bool
starts_with [] s = true
starts_with (c ∷ p) [] = false
starts_with (c ∷ p) (d ∷ s) = (c == d) && starts_with p s

-- `s.replace(p, "")` for `p` that is not empty; `skip` counts the characters of a match to drop.
unfoldable pub remove_from : Text → ℕ → Text → Text
remove_from p skip [] = []
remove_from p (suc skip) (c ∷ s) = remove_from p skip s
remove_from p zero (c ∷ s) =
    let dropped = remove_from p (pred (length p)) s in
    let kept = c ∷ remove_from p 0 s in if starts_with p (c ∷ s) then dropped else kept

unfoldable pub remove : Text → Text → Text
unfolding remove_from starts_with
remove p s = remove_from p 0 s

pub text_eq_iff : (s t : Text) → (text_eq s t ≡ true) ↔ (s ≡ t)
unfolding text_eq
text_eq_iff [] [] = ground arith
text_eq_iff [] (d ∷ t) = ground arith
text_eq_iff (c ∷ s) [] = ground arith
text_eq_iff (c ∷ s) (d ∷ t) = ground (arith, text_eq_iff s t)

pub text_eq_refl : (s : Text) → text_eq s s ≡ true
text_eq_refl s = (text_eq_iff s s).1 refl
