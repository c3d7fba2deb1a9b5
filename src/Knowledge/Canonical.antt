-- ===== src/Knowledge/Canonical.antt =====
-- Normal forms of family names (`normalize_family` of src/cryptohawk/knowledge/algorithms.py).
use crypto_hawk.Prelude.{
  ℕ, ◌≡◌, refl, ap, ◌⊎◌, inl, inr, some, [], ◌∷◌, map, arith, All, Text, text_eq, strip, lstrip,
  rstrip, keep_unless_blank, is_space, upper, upper_char, starts_with, strip_idem, strip-map,
  Option-cases, Bool-cases,
}
use mathlib.Core.Path.{subst}
use crypto_hawk.Knowledge.Families.{
  Entries, find, find_prefix, aliases, prefixes, dash_char, canonical, classify, normalize_family,
}

-- One character of `upper` and `replace` together.
clean : ℕ → ℕ
unfolding dash_char upper_char
clean c = dash_char (upper_char c)

clean_idem : (c : ℕ) → clean (clean c) ≡ clean c
unfolding clean
clean_idem c = ground arith

is_space-clean : (c : ℕ) → is_space (clean c) ≡ is_space c
unfolding clean is_space
is_space-clean c = ground arith

map-clean : (s : Text) → map dash_char (upper s) ≡ map clean s
unfolding upper clean
map-clean [] = refl
map-clean (c ∷ s) = ap (λ t. clean c ∷ t) (map-clean s)

map-clean_idem : (s : Text) → map clean (map clean s) ≡ map clean s
map-clean_idem [] = refl
map-clean_idem (c ∷ s) = cc (clean_idem c, map-clean_idem s)

canonical_idem : (v : Text) → canonical (canonical v) ≡ canonical v
unfolding canonical
canonical_idem v =
    rw (map-clean (strip v), map-clean)
      (rw (strip-map clean is_space-clean (strip v), strip_idem v) (map-clean_idem (strip v)))

-- What a table or a chain of tests returns is one of its values.
pub find-All :
    {V : Type 0} (P : V → Type 0) (t : Text) (entries : Entries V) {v : V}
    → All (λ e. P e.1) entries
    → find t entries ≡ some v
    → P v
unfolding find
find-All P t [] ps h = cc
find-All P t ((key, w) ∷ entries) ps h = elim (Bool-cases (text_eq t key)) [
  | inl e ↦ subst P (cc (rw e at h)) ps.0
  | inr e ↦ find-All P t entries ps.1 (rw e at h)
]

find_prefix-All :
    (P : Text → Type 0) (t : Text) (rest : Entries Text) {v : Text}
    → All (λ e. P e.1) rest
    → find_prefix t rest ≡ some v
    → P v
unfolding find_prefix
find_prefix-All P t [] ps h = cc
find_prefix-All P t ((prefix, w) ∷ rest) ps h = elim (Bool-cases (starts_with prefix t)) [
  | inl e ↦ subst P (cc (rw e at h)) ps.0
  | inr e ↦ find_prefix-All P t rest ps.1 (rw e at h)
]

abbrev IsNormal : Text → Type 0
IsNormal t = normalize_family t ≡ t

-- A lookup runs on a given text with all of these open.
unfoldable pub runs : Unit {0}
unfolding normalize_family find find_prefix text_eq starts_with strip lstrip rstrip
    keep_unless_blank is_space upper upper_char dash_char
runs = tt

aliases-All-IsNormal : All (λ e. IsNormal e.1) aliases
unfolding runs
aliases-All-IsNormal = (
  refl,
  (
    refl,
    (refl, (refl, (refl, (refl, (refl, (refl, (refl, (refl, (refl, (refl, (refl, tt))))))))))),
  ),
)

prefixes-All-IsNormal : All (λ e. IsNormal e.1) prefixes
unfolding runs
prefixes-All-IsNormal =
    (refl, (refl, (refl, (refl, (refl, (refl, (refl, (refl, (refl, (refl, tt))))))))))

-- A classified token is normal, or it is the token, which no table knows.
classify_cases : (token : Text) → IsNormal (classify token) ⊎ (classify token ≡ token)
unfolding classify
classify_cases token = elim (Option-cases (find token aliases)) [
  | inl e ↦ elim (Option-cases (find_prefix token prefixes)) [
    | inl e' ↦ inr (rw (e, classify) (rw (e', classify)))
    | inr (f, e') ↦ inl (
        rw (e, classify)
          (rw (e', classify) (find_prefix-All IsNormal token prefixes prefixes-All-IsNormal e')))
  ]
  | inr (f, e) ↦ inl (rw (e, classify) (find-All IsNormal token aliases aliases-All-IsNormal e))
]

-- Normalizing a family name a second time changes nothing, for every text.
pub normalize_family_idem :
    (value : Text) → normalize_family (normalize_family value) ≡ normalize_family value
unfolding normalize_family
normalize_family_idem value = elim (classify_cases (canonical value)) [
  | inl normal ↦ normal
  | inr same ↦ rw (same, canonical_idem value) same
]
