-- ===== src/Domain/Models.antt =====
-- Observations, scan contexts and assessments (src/cryptohawk/domain/models.py).
-- An identifier is a number; a confidence between 0 and 1 is counted in millionths.
use crypto_hawk.Prelude.{ℕ, ◌≤◌, Bool, Option, Text}

pub data AssetType : Type 0 where
  source repository tls_endpoint certificate ssh_endpoint container host : AssetType

pub data CryptoAssetType : Type 0 where
  algorithm protocol certificate related_crypto_material : CryptoAssetType

pub data Primitive : Type 0 where
  signature hash pke key_agree kem block_cipher stream_cipher ae kdf mac other unknown : Primitive

pub data Severity : Type 0 where
  info low medium high critical : Severity

pub data QuantumStatus : Type 0 where
  safe transition vulnerable unknown : QuantumStatus

pub record Evidence : Type 0 where
  pub source : Text
  pub locator : Option Text
  pub line : Option ℕ
  pub snippet : Option Text

pub record ScanContext : Type 0 where
  pub internet_exposed : Bool
  pub asset_criticality : ℕ
  pub data_lifetime_years : ℕ
  pub environment : Text

-- What the field constraints of `ScanContext` admit.
pub record IsContext (c : ScanContext) : Type 0 where
  pub criticality_pos : 1 ≤ c.asset_criticality
  pub criticality_capped : c.asset_criticality ≤ 10
  pub lifetime_capped : c.data_lifetime_years ≤ 50

pub record CryptoObservation : Type 0 where
  pub id : ℕ
  pub asset_id : ℕ
  pub asset_name : Text
  pub asset_type : AssetType
  pub crypto_asset_type : CryptoAssetType
  pub algorithm : Text
  pub family : Text
  pub primitive : Primitive
  pub parameter_set : Option Text
  pub key_size : Option ℕ
  pub protocol_version : Option Text
  pub confidence : ℕ
  pub evidence : Evidence
  pub discovered_at : ℕ

-- The disposition of a policy, in `RiskAssessment` and in the rules.
pub data PolicyDisposition : Type 0 where
  pass review fail : PolicyDisposition
