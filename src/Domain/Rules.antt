-- ===== src/Domain/Rules.antt =====
-- The rules of a policy version, and the policy in effect (src/cryptohawk/domain/policy.py).
use crypto_hawk.Prelude.{ℕ, Bool, List, Text, codes}
use crypto_hawk.Domain.Models.{PolicyDisposition}

pub data TlsVersion : Type 0 where
  tls_1_2 tls_1_3 : TlsVersion

abbrev pub version_text : TlsVersion → Text
version_text tls_1_2 = codes "1.2"
version_text tls_1_3 = codes "1.3"

pub record CryptoPolicyRules : Type 0 where
  pub minimum_rsa_bits : ℕ
  pub minimum_aes_bits : ℕ
  pub minimum_tls_version : TlsVersion
  pub disallowed_families : List Text
  pub quantum_vulnerable_default : PolicyDisposition
  pub internet_exposed_quantum_action : PolicyDisposition
  pub long_lived_data_years : ℕ
  pub unknown_family_action : PolicyDisposition
  pub minimum_detection_confidence : ℕ

pub record CryptoPolicyPack : Type 0 where
  pub id : ℕ
  pub workspace_id : ℕ
  pub slug : Text
  pub name : Text
  pub description : Text
  pub built_in : Bool
  pub created_by : Text
  pub created_at : ℕ

pub record CryptoPolicyVersion : Type 0 where
  pub id : ℕ
  pub policy_id : ℕ
  pub workspace_id : ℕ
  pub version : ℕ
  pub rules : CryptoPolicyRules
  pub rules_hash : Text
  pub created_by : Text
  pub created_at : ℕ

pub record EffectiveCryptoPolicy : Type 0 where
  pub pack : CryptoPolicyPack
  pub version : CryptoPolicyVersion
  pub assigned_by : Text
  pub assigned_at : ℕ
