-- ===== src/Knowledge/Profiles.antt =====
-- `AlgorithmProfile`, `PROFILES` and `get_profile` of src/cryptohawk/knowledge/algorithms.py.
use crypto_hawk.Prelude.{ℕ, Bool, true, false, Option, none, some, [], ◌∷◌, String, Text, codes}
use crypto_hawk.Domain.Models.{
  Primitive, signature, hash, pke, key_agree, kem, block_cipher, stream_cipher, QuantumStatus, safe,
  transition, vulnerable,
}
use crypto_hawk.Knowledge.Families.{Entries, find, normalize_family}

pub record AlgorithmProfile : Type 0 where
  pub family : Text
  pub primitive : Primitive
  pub quantum_status : QuantumStatus
  pub deprecated : Bool
  pub migration_target : Option Text
  pub migration_strategy : Option String
  pub security_bits : Option ℕ
  pub weakness_weight : ℕ

-- `_profile` for a primitive that has a successor
abbrev profile :
    String → Primitive → QuantumStatus → Bool → String → String → ℕ → ℕ → AlgorithmProfile
profile family primitive status deprecated target strategy bits weight = record {
  family = codes family;
  primitive = primitive;
  quantum_status = status;
  deprecated = deprecated;
  migration_target = some (codes target);
  migration_strategy = some strategy;
  security_bits = some bits;
  weakness_weight = weight;
}

-- `_profile` with the migration and the weight left at their defaults
abbrev modern : String → Primitive → ℕ → AlgorithmProfile
modern family primitive bits = record {
  family = codes family;
  primitive = primitive;
  quantum_status = safe;
  deprecated = false;
  migration_target = none;
  migration_strategy = none;
  security_bits = some bits;
  weakness_weight = 0;
}

abbrev pub profiles : Entries AlgorithmProfile
profiles =
    (codes "MD5", profile "MD5" hash vulnerable true "SHA-256" "Replace immediately" 0 40)
    ∷ (
      codes "SHA-1",
      profile "SHA-1" hash vulnerable true "SHA-256" "Replace collision-sensitive uses" 80 35,
    )
    ∷ (
      codes "DES",
      profile "DES" block_cipher vulnerable true "AES-256-GCM" "Replace immediately" 56 40,
    )
    ∷ (
      codes "3DES",
      profile "3DES" block_cipher vulnerable true "AES-256-GCM" "Replace immediately" 112 38,
    )
    ∷ (
      codes "RC4",
      profile "RC4" stream_cipher vulnerable true "AES-256-GCM" "Replace immediately" 0 40,
    )
    ∷ (
      codes "RSA",
      profile "RSA" pke vulnerable false "ML-KEM"
          "Use hybrid classical + ML-KEM for key establishment; ML-DSA for signatures" 112 18,
    )
    ∷ (
      codes "DSA",
      profile "DSA" signature vulnerable true "ML-DSA" "Replace signature scheme" 112 32,
    )
    ∷ (
      codes "ECDSA",
      profile "ECDSA" signature vulnerable false "ML-DSA"
          "Migrate signatures to ML-DSA; retain hybrid verification during transition" 128 18,
    )
    ∷ (
      codes "ED25519",
      profile "ED25519" signature vulnerable false "ML-DSA"
          "Migrate signatures to ML-DSA with a controlled hybrid transition" 128 18,
    )
    ∷ (
      codes "ED448",
      profile "ED448" signature vulnerable false "ML-DSA"
          "Migrate signatures to ML-DSA with a controlled hybrid transition" 224 18,
    )
    ∷ (
      codes "ECDH",
      profile "ECDH" key_agree vulnerable false "ML-KEM"
          "Adopt hybrid ECDH + ML-KEM during transition" 128 18,
    )
    ∷ (
      codes "DH",
      profile "DH" key_agree vulnerable false "ML-KEM"
          "Adopt hybrid finite-field DH + ML-KEM during transition" 112 22,
    )
    ∷ (
      codes "AES",
      profile "AES" block_cipher transition false "AES-256-GCM"
          "Prefer 256-bit keys for long-lived post-quantum confidentiality" 128 4,
    )
    ∷ (
      codes "CHACHA20",
      profile "ChaCha20" stream_cipher transition false "ChaCha20-Poly1305"
          "Retain with strong key management" 128 3,
    )
    ∷ (
      codes "SHA-256",
      profile "SHA-256" hash transition false "SHA-384"
          "Acceptable for most uses; consider wider hashes for long-lived PQ assurance" 128 2,
    )
    ∷ (codes "SHA-384", modern "SHA-384" hash 192)
    ∷ (codes "SHA-512", modern "SHA-512" hash 256)
    ∷ (codes "ML-KEM", modern "ML-KEM" kem 128)
    ∷ (codes "ML-DSA", modern "ML-DSA" signature 128)
    ∷ (codes "SLH-DSA", modern "SLH-DSA" signature 128)
    ∷ []

unfoldable pub get_profile : Text → Option AlgorithmProfile
unfolding find normalize_family
get_profile family = find (normalize_family family) profiles
