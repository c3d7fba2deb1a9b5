-- ===== src/Domain/Findings.antt =====
-- Findings and their assessments (src/cryptohawk/domain/models.py). A message that the engine or the
-- policy evaluator formats is a constructor with the values that it quotes.
use crypto_hawk.Prelude.{ℕ, Option, List, String, Text}
use crypto_hawk.Domain.Models.{CryptoObservation, Severity, QuantumStatus, PolicyDisposition}
use crypto_hawk.Domain.Rules.{TlsVersion}

pub data Reason : Type 0 where
  legacy_tls : Text → Reason
  tls_1_2_suites : Reason
  tls_1_3_baseline : Reason
  protocol_review : Reason
  deprecated_family : Text → Reason
  not_quantum_resistant : Text → Reason
  needs_pq_review : Text → Reason
  pq_or_high_margin : Text → Reason
  rsa_below_minimum : ℕ → Reason
  rsa_limited_margin : ℕ → Reason
  aes_insufficient : ℕ → Reason
  aes_128_grover : Reason
  aes_256_strong : Reason
  internet_exposed : Reason
  long_lifetime : Reason
  low_confidence : Reason
  no_rule_matched : Reason

pub data PolicyReason : Type 0 where
  family_disallowed : Text → PolicyReason
  rsa_size_unknown : PolicyReason
  rsa_size_below : (size minimum : ℕ) → PolicyReason
  aes_size_unknown : PolicyReason
  aes_size_below : (size minimum : ℕ) → PolicyReason
  tls_unknown : PolicyReason
  tls_below : Option Text → TlsVersion → PolicyReason
  quantum_requires : PolicyDisposition → PolicyReason
  internet_requires : PolicyDisposition → PolicyReason
  lifetime_meets : (years threshold : ℕ) → PolicyReason
  family_unknown : Text → PolicyDisposition → PolicyReason
  confidence_below : (confidence minimum : ℕ) → PolicyReason
  baseline_satisfied : PolicyReason

-- The controls, in the alphabetical order of their names.
pub data Control : Type 0 where
  detection_confidence disallowed_family harvest_now_decrypt_later internet_quantum_exposure :
      Control
  minimum_aes_bits minimum_rsa_bits minimum_tls_version quantum_vulnerable unknown_family : Control

pub record RiskAssessment : Type 0 where
  pub observation_id : ℕ
  pub score : ℕ
  pub severity : Severity
  pub quantum_status : QuantumStatus
  pub reasons : List Reason
  pub migration_target : Option Text
  pub migration_strategy : Option String
  pub security_bits : Option ℕ
  pub policy_id : Option ℕ
  pub policy_version : Option ℕ
  pub policy_name : Option Text
  pub policy_status : Option PolicyDisposition
  pub policy_reasons : List PolicyReason
  pub policy_controls : List Control
  pub policy_rules_hash : Option Text

pub record Finding : Type 0 where
  pub observation : CryptoObservation
  pub risk : RiskAssessment
