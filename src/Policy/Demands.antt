-- ===== src/Policy/Demands.antt =====
-- An independent reading of a baseline: what each control of src/cryptohawk/risk/policy.py demands
-- of an observation, if it applies.
use crypto_hawk.Prelude.{
  ℕ, ◌≡◌, Bool, ◌&&◌, Option, none, some, List, [], ◌∷◌, ◌++◌, codes, text_eq, arith, leb, ltb,
  if◌then◌else◌,
}
use crypto_hawk.Domain.Models.{CryptoObservation, ScanContext, PolicyDisposition, review, fail}
use crypto_hawk.Domain.Rules.{CryptoPolicyRules, version_text}
use crypto_hawk.Domain.Findings.{
  Control, detection_confidence, disallowed_family, harvest_now_decrypt_later,
  internet_quantum_exposure, minimum_aes_bits, minimum_rsa_bits, minimum_tls_version,
  quantum_vulnerable, unknown_family,
}
use crypto_hawk.Knowledge.{normalize_family}
use crypto_hawk.Risk.{is_protocol}
use crypto_hawk.Policy.Evaluator.{
  max_status, tls_rank, Verdict, is_disallowed, family_rule, rsa_rule, aes_rule, is_below, tls_rule,
  quantum_rule, is_unknown_algorithm, unknown_rule, confidence_rule,
}

abbrev when_some : Bool → PolicyDisposition → Option PolicyDisposition
when_some applies d = if applies then some d else none

-- A key of unknown size wants a review, one below the minimum fails.
abbrev size_demand : ℕ → Option ℕ → Option PolicyDisposition
size_demand minimum none = some review
size_demand minimum (some size) = when_some (ltb size minimum) fail

abbrev tls_demand : Option ℕ → Option ℕ → Option PolicyDisposition
tls_demand required none = some review
tls_demand required (some observed) = elim required [
  | none ↦ none
  | some r ↦ when_some (ltb observed r) fail
]

module _ (o : CryptoObservation) (c : ScanContext) (rules : CryptoPolicyRules)
    (vulnerable : Bool) where
  abbrev pub demand : Control → Option PolicyDisposition
  demand disallowed_family =
      when_some (is_disallowed (normalize_family o.family) rules.disallowed_families) fail
  demand minimum_rsa_bits =
      if text_eq (normalize_family o.family) (codes "RSA")
      then size_demand rules.minimum_rsa_bits o.key_size
      else none
  demand minimum_aes_bits =
      if text_eq (normalize_family o.family) (codes "AES")
      then size_demand rules.minimum_aes_bits o.key_size
      else none
  demand minimum_tls_version =
      if is_protocol o.crypto_asset_type
      then tls_demand (tls_rank (some (version_text rules.minimum_tls_version)))
          (tls_rank o.protocol_version)
      else none
  demand quantum_vulnerable = when_some vulnerable rules.quantum_vulnerable_default
  demand internet_quantum_exposure =
      when_some (vulnerable && c.internet_exposed) rules.internet_exposed_quantum_action
  demand harvest_now_decrypt_later =
      when_some (vulnerable && leb rules.long_lived_data_years c.data_lifetime_years) fail
  demand unknown_family =
      when_some (is_unknown_algorithm o c rules (normalize_family o.family))
        rules.unknown_family_action
  demand detection_confidence =
      when_some (ltb o.confidence rules.minimum_detection_confidence) review

abbrev pub raise : PolicyDisposition → Option PolicyDisposition → PolicyDisposition
raise s none = s
raise s (some d) = max_status s d

abbrev pub extend : List Control → Control → Option PolicyDisposition → List Control
extend cs control none = cs
extend cs control (some d) = cs ++ control ∷ []

-- What a block does to the status and the controls.
pub record Adds (control : Control) (d : Option PolicyDisposition) (v w : Verdict) : Type 0 where
  pub status : w.status ≡ raise v.status d
  pub controls : w.controls ≡ extend v.controls control d

module _ (o : CryptoObservation) (c : ScanContext) (rules : CryptoPolicyRules) (vulnerable : Bool)
    (v : Verdict) where
  pub family_rule-Adds :
      Adds disallowed_family
        (demand o c rules vulnerable disallowed_family)
        v
        (family_rule o c rules (normalize_family o.family) v)
  unfolding family_rule max_status
  family_rule-Adds = ground arith

  pub rsa_rule-Adds :
      Adds minimum_rsa_bits
        (demand o c rules vulnerable minimum_rsa_bits)
        v
        (rsa_rule o c rules (normalize_family o.family) v)
  unfolding rsa_rule max_status
  rsa_rule-Adds = ground arith

  pub aes_rule-Adds :
      Adds minimum_aes_bits
        (demand o c rules vulnerable minimum_aes_bits)
        v
        (aes_rule o c rules (normalize_family o.family) v)
  unfolding aes_rule max_status
  aes_rule-Adds = ground arith

  pub tls_rule-Adds :
      Adds minimum_tls_version
        (demand o c rules vulnerable minimum_tls_version)
        v
        (tls_rule o c rules v)
  unfolding tls_rule is_below max_status
  tls_rule-Adds = ground arith

  pub unknown_rule-Adds :
      Adds unknown_family
        (demand o c rules vulnerable unknown_family)
        v
        (unknown_rule o c rules (normalize_family o.family) v)
  unfolding unknown_rule max_status
  unknown_rule-Adds = ground arith

  pub confidence_rule-Adds :
      Adds detection_confidence
        (demand o c rules vulnerable detection_confidence)
        v
        (confidence_rule o c rules v)
  unfolding confidence_rule max_status
  confidence_rule-Adds = ground arith

  pub quantum_rule_status :
      (quantum_rule o c rules vulnerable v).status
      ≡ raise
          (raise
            (raise v.status (demand o c rules vulnerable quantum_vulnerable))
            (demand o c rules vulnerable internet_quantum_exposure))
          (demand o c rules vulnerable harvest_now_decrypt_later)
  unfolding quantum_rule max_status
  quantum_rule_status = ground arith

  pub quantum_rule_controls :
      (quantum_rule o c rules vulnerable v).controls
      ≡ extend
          (extend
            (extend v.controls quantum_vulnerable (demand o c rules vulnerable quantum_vulnerable))
            internet_quantum_exposure
            (demand o c rules vulnerable internet_quantum_exposure))
          harvest_now_decrypt_later
          (demand o c rules vulnerable harvest_now_decrypt_later)
  unfolding quantum_rule max_status
  quantum_rule_controls = ground arith
