-- ===== src/Knowledge/Entries.antt =====
-- The entries of `PROFILES` of src/cryptohawk/knowledge/algorithms.py.
use crypto_hawk.Prelude.{
  ◌≤◌, ◌≡◌, refl, true, false, codes, some, is_none, if◌then◌else◌, All, arith, Text, not, Bool,
  ◌||◌, ◌==◌,
}
use crypto_hawk.Domain.Models.{safe, vulnerable, transition, QuantumStatus}
use crypto_hawk.Knowledge.Families.{normalize_family}
use crypto_hawk.Knowledge.Profiles.{AlgorithmProfile, profiles, get_profile}
use crypto_hawk.Knowledge.Canonical.{runs, find-All, normalize_family_idem}

abbrev pub is_vulnerable : QuantumStatus → Bool
is_vulnerable vulnerable = true
is_vulnerable _ = false

abbrev pub is_safe : QuantumStatus → Bool
is_safe safe = true
is_safe _ = false

-- What the engine relies on in a profile.
pub record IsSound (p : AlgorithmProfile) : Type 0 where
  pub weight_capped : p.weakness_weight ≤ 40
  pub deprecated_weight : (if p.deprecated then 32 else 0) ≤ p.weakness_weight
  pub deprecated_vulnerable : (not p.deprecated || is_vulnerable p.quantum_status) ≡ true
  pub safe_weight : (not (is_safe p.quantum_status) || (p.weakness_weight == 0)) ≡ true
  pub safe_target : (not (is_safe p.quantum_status) || is_none p.migration_target) ≡ true

profiles-All-IsSound : All (λ e. IsSound e.1) profiles
profiles-All-IsSound = ground arith

-- A profile that a family name leads to weighs at most 40; if it is deprecated, it weighs at least
-- 32 and is quantum-vulnerable; if it is quantum-safe, it has no weight and no migration target.
pub get_profile-IsSound :
    (family : Text) {p : AlgorithmProfile} → get_profile family ≡ some p → IsSound p
unfolding get_profile
get_profile-IsSound family h =
    find-All IsSound (normalize_family family) profiles profiles-All-IsSound h

-- The profile of a name is that of its normal form.
pub get_profile-normalize_family :
    (family : Text) → get_profile (normalize_family family) ≡ get_profile family
unfolding get_profile
get_profile-normalize_family family = rw normalize_family_idem

-- AES starts low: its weight is 4 and it is in transition.
pub get_profile_aes :
    (p : AlgorithmProfile) × (get_profile (codes "AES") ≡ some p)
    × (p.weakness_weight ≡ 4)
    × (p.quantum_status ≡ transition)
    × (p.deprecated ≡ false)
unfolding get_profile runs
get_profile_aes = (_, refl, refl, refl, refl)

-- RSA is vulnerable, and not deprecated.
pub get_profile_rsa :
    (p : AlgorithmProfile) × (get_profile (codes "RSA") ≡ some p)
    × (p.weakness_weight ≡ 18)
    × (p.quantum_status ≡ vulnerable)
    × (p.deprecated ≡ false)
unfolding get_profile runs
get_profile_rsa = (_, refl, refl, refl, refl)
