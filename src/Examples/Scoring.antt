-- ===== src/Examples/Scoring.antt =====
-- Observations assessed by the engine of src/cryptohawk/risk/engine.py.
use crypto_hawk.Prelude.{
  ℕ, ◌≡◌, ◌≤◌, ◌+◌, refl, true, false, Option, none, some, codes, arith, inl, Text, is_space,
  keep_unless_blank, lstrip, rstrip, starts_with, strip, text_eq, upper, upper_char,
}
use crypto_hawk.Domain.Models.{
  CryptoObservation, ScanContext, IsContext, source, CryptoAssetType, pke, safe,
}
use crypto_hawk.Knowledge.{normalize_family, dash_char, find_prefix}
use crypto_hawk.Knowledge.Canonical.{normalize_family_idem}
use crypto_hawk.Knowledge.{get_profile, AlgorithmProfile}
use crypto_hawk.Knowledge.Entries.{IsSound, get_profile-IsSound}
use crypto_hawk.Risk.{assess, total, crypto_draft, internet_points, lifetime_points}
use crypto_hawk.Risk.Bounds.{total-eq-sum}
use crypto_hawk.Risk.Monotone.{rank, assess_mono, with_key_size, assess-size_antitone}
use crypto_hawk.Risk.Families.{assess-deprecated, assess-safe}

abbrev pub found_in : Text → Option ℕ → CryptoObservation
found_in family size = record {
  id = 1;
  asset_id = 2;
  asset_name = codes "app.py";
  asset_type = source;
  crypto_asset_type = CryptoAssetType.algorithm;
  algorithm = family;
  family = family;
  primitive = pke;
  parameter_set = none;
  key_size = size;
  protocol_version = none;
  confidence = 900000;
  evidence = record { source = codes "scanner"; locator = none; line = some 3; snippet = none };
  discovered_at = 0;
}

abbrev pub reachable : ScanContext
reachable = record {
  internet_exposed = true;
  asset_criticality = 10;
  data_lifetime_years = 20;
  environment = codes "production";
}

abbrev pub internal : ScanContext
internal = record {
  internet_exposed = false;
  asset_criticality = 3;
  data_lifetime_years = 2;
  environment = codes "test";
}

reachable-IsContext : IsContext reachable
reachable-IsContext = record {
  criticality_pos = omega arith;
  criticality_capped = omega arith;
  lifetime_capped = omega arith;
}

total-eq-sum_example :
    let o = found_in (codes "RSA") (some 1024) in
    (total o reachable
      ≡ (crypto_draft o).weakness
        + (crypto_draft o).quantum
        + internet_points reachable
        + lifetime_points reachable
        + 10)
    × ((crypto_draft o).weakness ≤ 40)
    × ((crypto_draft o).quantum ≤ 25)
    × (internet_points reachable ≤ 15)
    × (lifetime_points reachable ≤ 10)
    × (total o reachable ≤ 100)
total-eq-sum_example =
    total-eq-sum (found_in (codes "RSA") (some 1024)) reachable reachable-IsContext

assess_mono_example :
    let o = found_in (codes "RSA") (some 2048) in
    ((assess o (some internal)).risk.score ≤ (assess o (some reachable)).risk.score)
    × (rank (assess o (some internal)).risk.severity
        ≤ rank (assess o (some reachable)).risk.severity)
assess_mono_example =
    assess_mono (found_in (codes "RSA") (some 2048)) internal reachable
      (record { internet = refl; lifetime = omega arith; criticality = omega arith })

assess-size_antitone_example :
    let o = found_in (codes "RSA") none in
    ((assess (with_key_size 4096 o) (some internal)).risk.score
      ≤ (assess (with_key_size 1024 o) (some internal)).risk.score)
    × (rank (assess (with_key_size 4096 o) (some internal)).risk.severity
        ≤ rank (assess (with_key_size 1024 o) (some internal)).risk.severity)
assess-size_antitone_example =
    assess-size_antitone (found_in (codes "RSA") none) internal 1024 4096 (inl refl) (omega arith)
      (omega arith)

md5_profile : (p : AlgorithmProfile) × (get_profile (codes "md5") ≡ some p) × (p.deprecated ≡ true)
unfolding get_profile text_eq upper strip rstrip lstrip is_space keep_unless_blank dash_char
    upper_char find_prefix starts_with
md5_profile = (_, refl, refl)

ml_kem_profile :
    (p : AlgorithmProfile) × (get_profile (codes "ML-KEM-768") ≡ some p) × (p.quantum_status ≡ safe)
unfolding get_profile text_eq upper strip rstrip lstrip is_space keep_unless_blank dash_char
    upper_char find_prefix starts_with
ml_kem_profile = (_, refl, refl)

assess-deprecated_example :
    (73 ≤ (assess (found_in (codes "md5") none) (some reachable)).risk.score)
    × (3 ≤ rank (assess (found_in (codes "md5") none) (some reachable)).risk.severity)
assess-deprecated_example =
    assess-deprecated (found_in (codes "md5") none) md5_profile.0 reachable md5_profile.1
      reachable-IsContext md5_profile.2

assess-safe_example :
    ((assess (found_in (codes "ML-KEM-768") none) (some reachable)).risk.score ≡ 35)
    × ((assess (found_in (codes "ML-KEM-768") none) (some reachable)).risk.score ≤ 35)
    × (rank (assess (found_in (codes "ML-KEM-768") none) (some reachable)).risk.severity ≤ 2)
assess-safe_example =
    assess-safe (found_in (codes "ML-KEM-768") none) ml_kem_profile.0 reachable ml_kem_profile.1
      reachable-IsContext ml_kem_profile.2

normalize_family_idem_example :
    normalize_family (normalize_family (codes " sha_1 ")) ≡ normalize_family (codes " sha_1 ")
normalize_family_idem_example = normalize_family_idem (codes " sha_1 ")

get_profile-IsSound_example : IsSound md5_profile.0
get_profile-IsSound_example = get_profile-IsSound (codes "md5") md5_profile.1
