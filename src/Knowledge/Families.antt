-- ===== src/Knowledge/Families.antt =====
-- `ALIASES` and `normalize_family` of src/cryptohawk/knowledge/algorithms.py.
use crypto_hawk.Prelude.{
  ℕ, Option, none, some, List, [], ◌∷◌, map, Text, codes, text_eq, strip, upper, starts_with, ◌==◌,
  if◌then◌else◌,
}

-- A `dict` from texts, and a chain of tests that maps texts to texts.
abbrev pub Entries : Type 0 → Type 0
Entries V = List (Text × V)

unfoldable pub find : {V : Type 0} → Text → Entries V → Option V
find t [] = none
find t ((key, v) ∷ entries) = if text_eq t key then some v else find t entries

unfoldable pub find_prefix : Text → Entries Text → Option Text
find_prefix t [] = none
find_prefix t ((prefix, family) ∷ rest) =
    if starts_with prefix t then some family else find_prefix t rest

abbrev pub aliases : Entries Text
aliases =
    (codes "SHA1", codes "SHA-1")
    ∷ (codes "SHA256", codes "SHA-256")
    ∷ (codes "SHA384", codes "SHA-384")
    ∷ (codes "SHA512", codes "SHA-512")
    ∷ (codes "TRIPLEDES", codes "3DES")
    ∷ (codes "DES3", codes "3DES")
    ∷ (codes "ARC4", codes "RC4")
    ∷ (codes "KYBER", codes "ML-KEM")
    ∷ (codes "CRYSTALS-KYBER", codes "ML-KEM")
    ∷ (codes "DILITHIUM", codes "ML-DSA")
    ∷ (codes "CRYSTALS-DILITHIUM", codes "ML-DSA")
    ∷ (codes "SPHINCS+", codes "SLH-DSA")
    ∷ (codes "SSH-ED25519", codes "ED25519")
    ∷ []

-- The chain of `startswith` tests, in the order of the code.
abbrev pub prefixes : Entries Text
prefixes =
    (codes "AES-", codes "AES")
    ∷ (codes "RSA", codes "RSA")
    ∷ (codes "ECDSA", codes "ECDSA")
    ∷ (codes "ECDH", codes "ECDH")
    ∷ (codes "ED25519", codes "ED25519")
    ∷ (codes "ED448", codes "ED448")
    ∷ (codes "ML-KEM", codes "ML-KEM")
    ∷ (codes "ML-DSA", codes "ML-DSA")
    ∷ (codes "SLH-DSA", codes "SLH-DSA")
    ∷ (codes "CHACHA20", codes "CHACHA20")
    ∷ []

-- `_` for `-`
unfoldable pub dash_char : ℕ → ℕ
dash_char c = if c == b'_' then b'-' else c

-- `value.strip().upper().replace("_", "-")`
unfoldable pub canonical : Text → Text
canonical value = map dash_char (upper (strip value))

unfoldable pub classify : Text → Text
classify token = elim (find token aliases) [
  | some family ↦ family
  | none ↦ elim (find_prefix token prefixes) [ some family ↦ family | none ↦ token ]
]

unfoldable pub normalize_family : Text → Text
unfolding canonical classify
normalize_family value = classify (canonical value)
