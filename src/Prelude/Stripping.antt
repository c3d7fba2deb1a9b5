-- ===== src/Prelude/Stripping.antt =====
-- What `strip` does to a text that is stripped, or mapped character by character.
use Prim.Native.Nat.{ℕ}
use mathlib.Core.Path.{◌≡◌, refl, sym, ap, ◌∙◌}
use mathlib.Core.Bool.{true, false}
use mathlib.Core.Logic.{inl, inr}
use mathlib.Core.List.{[], ◌∷◌, map}
use native.Mathlib.Omega.{arith}
use crypto_hawk.Prelude.Tests.{Bool-cases}
use crypto_hawk.Prelude.Strings.{Text, is_space, lstrip, rstrip, keep_unless_blank, strip}

lstrip_idem : (s : Text) → lstrip (lstrip s) ≡ lstrip s
unfolding lstrip
lstrip_idem [] = refl
lstrip_idem (c ∷ s) = ground (arith, lstrip_idem s)

rstrip-keep :
    (c : ℕ) (s : Text) → rstrip s ≡ s → rstrip (keep_unless_blank c s) ≡ keep_unless_blank c s
unfolding rstrip keep_unless_blank
rstrip-keep c [] h = ground arith
rstrip-keep c (d ∷ s) h = rw h

rstrip_idem : (s : Text) → rstrip (rstrip s) ≡ rstrip s
unfolding rstrip
rstrip_idem [] = refl
rstrip_idem (c ∷ s) = rstrip-keep c (rstrip s) (rstrip_idem s)

lstrip-space : (c : ℕ) (s : Text) → is_space c ≡ true → lstrip (c ∷ s) ≡ lstrip s
unfolding lstrip
lstrip-space c s h = rw h

lstrip-other : (c : ℕ) (s : Text) → is_space c ≡ false → lstrip (c ∷ s) ≡ c ∷ s
unfolding lstrip
lstrip-other c s h = rw h

lstrip-keep_space :
    (c : ℕ) (s : Text) → is_space c ≡ true → lstrip (keep_unless_blank c s) ≡ lstrip s
unfolding lstrip keep_unless_blank
lstrip-keep_space c [] h = ground arith
lstrip-keep_space c (d ∷ s) h = rw h

lstrip-keep_other :
    (c : ℕ) (s : Text) → is_space c ≡ false → lstrip (keep_unless_blank c s) ≡ keep_unless_blank c s
unfolding lstrip keep_unless_blank
lstrip-keep_other c [] h = ground arith
lstrip-keep_other c (d ∷ s) h = rw h

lstrip-rstrip : (s : Text) → lstrip (rstrip s) ≡ rstrip (lstrip s)
unfolding rstrip
lstrip-rstrip [] = unfold lstrip in refl
lstrip-rstrip (c ∷ s) = elim (Bool-cases (is_space c)) [
  | inl h ↦
      lstrip-keep_space c (rstrip s) h ∙ lstrip-rstrip s ∙ ap rstrip (sym (lstrip-space c s h))
  | inr h ↦ lstrip-keep_other c (rstrip s) h ∙ ap rstrip (sym (lstrip-other c s h))
]

pub strip_idem : (s : Text) → strip (strip s) ≡ strip s
unfolding strip
strip_idem s = rw (lstrip-rstrip, lstrip_idem) (rstrip_idem (lstrip s))

-- A map that keeps the spaces apart from the rest goes past `strip`.
module _ (f : ℕ → ℕ) (same : (c : ℕ) → is_space (f c) ≡ is_space c) where
  lstrip-map : (s : Text) → lstrip (map f s) ≡ map f (lstrip s)
  unfolding lstrip
  lstrip-map [] = refl
  lstrip-map (c ∷ s) = ground (arith, same c, lstrip-map s)

  keep-map : (c : ℕ) (s : Text) → keep_unless_blank (f c) (map f s) ≡ map f (keep_unless_blank c s)
  unfolding keep_unless_blank
  keep-map c [] = ground (arith, same c)
  keep-map c (d ∷ s) = refl

  rstrip-map : (s : Text) → rstrip (map f s) ≡ map f (rstrip s)
  unfolding rstrip
  rstrip-map [] = refl
  rstrip-map (c ∷ s) = rw (rstrip-map s) (keep-map c (rstrip s))

  pub strip-map : (s : Text) → strip (map f s) ≡ map f (strip s)
  unfolding strip
  strip-map s = rw lstrip-map (rstrip-map (lstrip s))
