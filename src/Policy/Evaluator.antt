-- ===== src/Policy/Evaluator.antt =====
-- `CryptoPolicyEvaluator.apply` of src/cryptohawk/risk/policy.py: its local variables are the fields
-- of a `Verdict`, and each block of the method is a function that returns the verdict it leaves.
use crypto_hawk.Prelude.{
  ℕ, Bool, false, ◌||◌, Option, none, some, List, [], ◌∷◌, ◌++◌, Text, codes, text_eq, strip, upper,
  remove, is_none, leb, ltb, ◌==◌, if◌then◌else◌,
}
use crypto_hawk.Domain.Models.{
  CryptoObservation, ScanContext, algorithm, PolicyDisposition, pass, review, fail,
}
use crypto_hawk.Domain.Rules.{CryptoPolicyRules, EffectiveCryptoPolicy, version_text}
use crypto_hawk.Domain.Findings.{
  PolicyReason, family_disallowed, rsa_size_unknown, rsa_size_below, aes_size_unknown,
  aes_size_below, tls_unknown, tls_below, quantum_requires, internet_requires, lifetime_meets,
  family_unknown, confidence_below, baseline_satisfied, Control, detection_confidence,
  disallowed_family, harvest_now_decrypt_later, internet_quantum_exposure, minimum_aes_bits,
  minimum_rsa_bits, minimum_tls_version, quantum_vulnerable, unknown_family, Finding,
}
use crypto_hawk.Knowledge.{get_profile, normalize_family}
use crypto_hawk.Risk.{is_protocol, is_vulnerable}

-- `_STATUS_ORDER`
abbrev pub status_order : PolicyDisposition → ℕ
status_order pass = 0
status_order review = 1
status_order fail = 2

unfoldable pub max_status : PolicyDisposition → PolicyDisposition → PolicyDisposition
max_status current candidate =
    if ltb (status_order current) (status_order candidate) then candidate else current

-- `value.strip().upper().replace("TLSV", "").replace("TLS ", "")`
unfoldable pub tls_name : Text → Text
tls_name value = remove (codes "TLS ") (remove (codes "TLSV") (upper (strip value)))

unfoldable pub rank_of_name : Text → Option ℕ
rank_of_name name =
    if text_eq name (codes "1") || text_eq name (codes "1.0")
    then some 10
    else if text_eq name (codes "1.1")
    then some 11
    else if text_eq name (codes "1.2")
    then some 12
    else if text_eq name (codes "1.3")
    then some 13
    else none

unfoldable pub tls_rank : Option Text → Option ℕ
unfolding tls_name rank_of_name
tls_rank none = none
tls_rank (some value) = rank_of_name (tls_name value)

pub record Verdict : Type 0 where
  pub status : PolicyDisposition
  pub reasons : List PolicyReason
  pub controls : List Control

-- `controls.append` and `reasons.append`, with the new status
abbrev pub note : PolicyDisposition → Control → PolicyReason → Verdict → Verdict
note status control reason v = record {
  status = status;
  reasons = v.reasons ++ reason ∷ [];
  controls = v.controls ++ control ∷ [];
}

-- `family in {normalize_family(value) for value in families}`
unfoldable pub is_disallowed : Text → List Text → Bool
is_disallowed family [] = false
is_disallowed family (value ∷ values) =
    text_eq family (normalize_family value) || is_disallowed family values

module _ (o : CryptoObservation) (c : ScanContext) (rules : CryptoPolicyRules) where
  unfoldable pub family_rule : Text → Verdict → Verdict
  family_rule family v =
      if is_disallowed family rules.disallowed_families
      then note fail disallowed_family (family_disallowed family) v
      else v

  -- The size of the key against the minimum.
  unfoldable pub rsa_size_rule : Option ℕ → Verdict → Verdict
  unfolding max_status
  rsa_size_rule none v = note (max_status v.status review) minimum_rsa_bits rsa_size_unknown v
  rsa_size_rule (some size) v =
      if ltb size rules.minimum_rsa_bits
      then note fail minimum_rsa_bits (rsa_size_below size rules.minimum_rsa_bits) v
      else v

  unfoldable pub aes_size_rule : Option ℕ → Verdict → Verdict
  unfolding max_status
  aes_size_rule none v = note (max_status v.status review) minimum_aes_bits aes_size_unknown v
  aes_size_rule (some size) v =
      if ltb size rules.minimum_aes_bits
      then note fail minimum_aes_bits (aes_size_below size rules.minimum_aes_bits) v
      else v

  unfoldable pub rsa_rule : Text → Verdict → Verdict
  unfolding rsa_size_rule
  rsa_rule family v = if text_eq family (codes "RSA") then rsa_size_rule o.key_size v else v

  unfoldable pub aes_rule : Text → Verdict → Verdict
  unfolding aes_size_rule
  aes_rule family v = if text_eq family (codes "AES") then aes_size_rule o.key_size v else v

  -- `required_tls is not None and observed_tls < required_tls`
  unfoldable pub is_below : ℕ → Option ℕ → Bool
  is_below observed none = false
  is_below observed (some required) = ltb observed required

  unfoldable pub tls_rank_rule : Option ℕ → Verdict → Verdict
  unfolding max_status is_below
  tls_rank_rule none v = note (max_status v.status review) minimum_tls_version tls_unknown v
  tls_rank_rule (some observed) v =
      if is_below observed (tls_rank (some (version_text rules.minimum_tls_version)))
      then note fail minimum_tls_version (tls_below o.protocol_version rules.minimum_tls_version) v
      else v

  unfoldable pub tls_rule : Verdict → Verdict
  unfolding tls_rank_rule
  tls_rule v =
      if is_protocol o.crypto_asset_type then tls_rank_rule (tls_rank o.protocol_version) v else v

  unfoldable pub quantum_default_rule : Verdict → Verdict
  unfolding max_status
  quantum_default_rule v =
      note (max_status v.status rules.quantum_vulnerable_default) quantum_vulnerable
        (quantum_requires rules.quantum_vulnerable_default) v

  unfoldable pub internet_rule : Verdict → Verdict
  unfolding max_status
  internet_rule v =
      if c.internet_exposed
      then note (max_status v.status rules.internet_exposed_quantum_action)
          internet_quantum_exposure (internet_requires rules.internet_exposed_quantum_action) v
      else v

  unfoldable pub lifetime_rule : Verdict → Verdict
  lifetime_rule v =
      if leb rules.long_lived_data_years c.data_lifetime_years
      then note fail harvest_now_decrypt_later
          (lifetime_meets c.data_lifetime_years rules.long_lived_data_years) v
      else v

  unfoldable pub quantum_rule : Bool → Verdict → Verdict
  unfolding quantum_default_rule internet_rule lifetime_rule
  quantum_rule vulnerable v =
      if vulnerable then lifetime_rule (internet_rule (quantum_default_rule v)) else v

  unfoldable pub is_unknown_algorithm : Text → Bool
  is_unknown_algorithm family = elim o.crypto_asset_type [
    | algorithm ↦ is_none (get_profile family)
    | _ ↦ false
  ]

  unfoldable pub unknown_rule : Text → Verdict → Verdict
  unfolding max_status is_unknown_algorithm
  unknown_rule family v =
      if is_unknown_algorithm family
      then note (max_status v.status rules.unknown_family_action) unknown_family
          (family_unknown family rules.unknown_family_action) v
      else v

  unfoldable pub confidence_rule : Verdict → Verdict
  unfolding max_status
  confidence_rule v =
      if ltb o.confidence rules.minimum_detection_confidence
      then note (max_status v.status review) detection_confidence
          (confidence_below o.confidence rules.minimum_detection_confidence) v
      else v

  -- The whole chain of blocks, in the order of the method.
  unfoldable pub verdict : Bool → Verdict
  unfolding family_rule rsa_rule aes_rule tls_rule quantum_rule unknown_rule confidence_rule
  verdict vulnerable =
      let family = normalize_family o.family in
      confidence_rule (
        unknown_rule family (
          quantum_rule vulnerable (
            tls_rule (
              aes_rule family (
                rsa_rule family
                  (family_rule family (record { status = pass; reasons = []; controls = [] })))))))

-- The place of a control in the alphabetical order of the names.
abbrev pub control_order : Control → ℕ
control_order detection_confidence = 0
control_order disallowed_family = 1
control_order harvest_now_decrypt_later = 2
control_order internet_quantum_exposure = 3
control_order minimum_aes_bits = 4
control_order minimum_rsa_bits = 5
control_order minimum_tls_version = 6
control_order quantum_vulnerable = 7
control_order unknown_family = 8

unfoldable pub insert_control : Control → List Control → List Control
insert_control x [] = x ∷ []
insert_control x (y ∷ ys) =
    if ltb (control_order x) (control_order y)
    then x ∷ y ∷ ys
    else if control_order x == control_order y
    then y ∷ ys
    else y ∷ insert_control x ys

-- `sorted(set(controls))`
unfoldable pub sorted_set : List Control → List Control
unfolding insert_control
sorted_set [] = []
sorted_set (x ∷ xs) = insert_control x (sorted_set xs)

abbrev pub reasons_or_satisfied : List PolicyReason → List PolicyReason
reasons_or_satisfied [] = baseline_satisfied ∷ []
reasons_or_satisfied (r ∷ rs) = r ∷ rs

unfoldable pub apply : Finding → ScanContext → EffectiveCryptoPolicy → Finding
unfolding verdict sorted_set
apply f c policy =
    let v = verdict f.observation c policy.version.rules (is_vulnerable f.risk.quantum_status) in
    record f {
      risk = record (f.risk) {
        policy_id = some policy.pack.id;
        policy_version = some policy.version.version;
        policy_name = some policy.pack.name;
        policy_status = some v.status;
        policy_reasons = reasons_or_satisfied v.reasons;
        policy_controls = sorted_set v.controls;
        policy_rules_hash = some policy.version.rules_hash;
      };
    }
