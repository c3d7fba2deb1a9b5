-- ===== src/Risk/Engine.antt =====
-- `RiskEngine.assess` of src/cryptohawk/risk/engine.py: its local variables are the fields of a
-- `Draft`, and each block of the method is a function that returns the draft it leaves.
use crypto_hawk.Prelude.{
  ℕ, ◌+◌, Bool, true, false, ◌&&◌, ◌||◌, Option, none, some, List, [], ◌∷◌, ◌++◌, String, Text,
  codes, text_eq, remove, min, max, leb, ltb, ◌==◌, if◌then◌else◌,
}
use crypto_hawk.Domain.Models.{
  CryptoObservation, ScanContext, CryptoAssetType, protocol, Primitive, signature, Severity, info,
  low, medium, high, critical, QuantumStatus, safe, transition, vulnerable,
}
use crypto_hawk.Knowledge.{AlgorithmProfile, get_profile}
use crypto_hawk.Domain.Findings.{
  Reason, legacy_tls, tls_1_2_suites, tls_1_3_baseline, protocol_review, deprecated_family,
  not_quantum_resistant, needs_pq_review, pq_or_high_margin, rsa_below_minimum, rsa_limited_margin,
  aes_insufficient, aes_128_grover, aes_256_strong, internet_exposed, long_lifetime, low_confidence,
  no_rule_matched, Finding,
}

unfoldable pub severity_for : ℕ → Severity
severity_for score =
    if leb 80 score
    then critical
    else if leb 60 score
    then high
    else if leb 35 score
    then medium
    else if leb 15 score
    then low
    else info

pub record Draft : Type 0 where
  pub reasons : List Reason
  pub weakness : ℕ
  pub quantum : ℕ
  pub migration_target : Option Text
  pub migration_strategy : Option String
  pub security_bits : Option ℕ
  pub quantum_status : QuantumStatus

-- `reasons.append`, with the other changes of the same branch
abbrev because : Reason → Draft → Draft
because reason d = record d { reasons = d.reasons ++ reason ∷ [] }

unfoldable pub initial : Draft
initial = record {
  reasons = [];
  weakness = 12;
  quantum = 10;
  migration_target = none;
  migration_strategy = none;
  security_bits = none;
  quantum_status = QuantumStatus.unknown;
}

abbrev pub text_or_empty : Option Text → Text
text_or_empty none = []
text_or_empty (some t) = t

-- `(observation.protocol_version or "").replace("TLSv", "")`
unfoldable pub tls_version : Option Text → Text
tls_version version = remove (codes "TLSv") (text_or_empty version)

unfoldable pub is_legacy_tls : Text → Bool
is_legacy_tls version =
    text_eq version (codes "1") || text_eq version (codes "1.0") || text_eq version (codes "1.1")

unfoldable pub protocol_version_rules : Text → Draft → Draft
protocol_version_rules version d =
    if is_legacy_tls version
    then because (legacy_tls version) (record d {
      weakness = 35;
      migration_target = some (codes "TLS 1.3");
      migration_strategy = some "Disable legacy TLS and require TLS 1.2+; prefer TLS 1.3";
    })
    else if text_eq version (codes "1.2")
    then because tls_1_2_suites d
    else if text_eq version (codes "1.3")
    then because tls_1_3_baseline d
    else because protocol_review d

abbrev pub is_protocol : CryptoAssetType → Bool
is_protocol protocol = true
is_protocol _ = false

unfoldable pub protocol_rules : CryptoObservation → Draft → Draft
unfolding protocol_version_rules
protocol_rules o d =
    if is_protocol o.crypto_asset_type
    then protocol_version_rules (tls_version o.protocol_version)
        (record d { quantum_status = transition; weakness = 2; quantum = 4 })
    else d

unfoldable pub quantum_rules : Text → QuantumStatus → Draft → Draft
quantum_rules family vulnerable d =
    because (not_quantum_resistant family) (record d { quantum = 25 })
quantum_rules family transition d = because (needs_pq_review family) (record d { quantum = 8 })
quantum_rules family safe d = because (pq_or_high_margin family) (record d { quantum = 0 })
quantum_rules family QuantumStatus.unknown d = d

unfoldable pub deprecation_rules : AlgorithmProfile → Draft → Draft
deprecation_rules p d = if p.deprecated then because (deprecated_family p.family) d else d

unfoldable pub profile_rules : Option AlgorithmProfile → Draft → Draft
unfolding quantum_rules deprecation_rules
profile_rules none d = d
profile_rules (some p) d = quantum_rules p.family p.quantum_status (
    deprecation_rules p (record d {
      weakness = p.weakness_weight;
      quantum_status = p.quantum_status;
      migration_target = p.migration_target;
      migration_strategy = p.migration_strategy;
      security_bits = p.security_bits;
    }))

abbrev pub is_signature : Primitive → Bool
is_signature signature = true
is_signature _ = false

unfoldable pub rsa_signature_rules : CryptoObservation → Draft → Draft
rsa_signature_rules o d =
    if text_eq o.family (codes "RSA") && is_signature o.primitive
    then record d {
      migration_target = some (codes "ML-DSA");
      migration_strategy =
          some
            "Migrate RSA signatures to ML-DSA; retain controlled hybrid verification during transition";
    }
    else d

-- A key size of 0 is false, as an absent one is.
abbrev pub known_size : Option ℕ → ℕ
known_size none = 0
known_size (some n) = n

unfoldable pub rsa_size_rules : ℕ → Draft → Draft
rsa_size_rules size d =
    if ltb size 2048
    then because (rsa_below_minimum size) (record d { weakness = 40 })
    else if ltb size 3072
    then because (rsa_limited_margin size) (record d { weakness = max d.weakness 24 })
    else d

unfoldable pub aes_size_rules : ℕ → Draft → Draft
aes_size_rules size d =
    if ltb size 128
    then because (aes_insufficient size) (record d { weakness = 40 })
    else if size == 128
    then because aes_128_grover (record d { quantum = max d.quantum 10 })
    else if leb 256 size
    then because aes_256_strong (record d { quantum = min d.quantum 3 })
    else d

unfoldable pub sized_rules : Text → (ℕ → Draft → Draft) → CryptoObservation → Draft → Draft
sized_rules family rules o d =
    if text_eq o.family family && ltb 0 (known_size o.key_size)
    then rules (known_size o.key_size) d
    else d

-- The draft before the rules that look at the key size.
unfoldable pub base_draft : CryptoObservation → Draft
unfolding initial protocol_rules profile_rules rsa_signature_rules
base_draft o =
    rsa_signature_rules o (profile_rules (get_profile o.family) (protocol_rules o initial))

-- The draft after all rules about the cryptography itself.
unfoldable pub crypto_draft : CryptoObservation → Draft
unfolding base_draft sized_rules rsa_size_rules aes_size_rules
crypto_draft o =
    sized_rules (codes "AES") aes_size_rules o
      (sized_rules (codes "RSA") rsa_size_rules o (base_draft o))

abbrev pub internet_points : ScanContext → ℕ
internet_points c = if c.internet_exposed then 15 else 0

abbrev pub lifetime_points : ScanContext → ℕ
lifetime_points c = min c.data_lifetime_years 10

unfoldable pub total : CryptoObservation → ScanContext → ℕ
unfolding crypto_draft
total o c =
    let d = crypto_draft o in
    min 100 (d.weakness + d.quantum + internet_points c + lifetime_points c + c.asset_criticality)

abbrev pub is_vulnerable : QuantumStatus → Bool
is_vulnerable vulnerable = true
is_vulnerable _ = false

-- `reasons.append` under a test
abbrev pub when : Bool → Reason → List Reason
when true reason = reason ∷ []
when false reason = []

unfoldable pub all_reasons : CryptoObservation → ScanContext → List Reason
unfolding crypto_draft
all_reasons o c =
    let d = crypto_draft o in
    d.reasons
    ++ (when c.internet_exposed internet_exposed
        ++ (when (leb 5 (lifetime_points c) && is_vulnerable d.quantum_status) long_lifetime
            ++ when (ltb o.confidence 750000) low_confidence))

-- `reasons or [...]`
abbrev pub or_default : List Reason → List Reason
or_default [] = no_rule_matched ∷ []
or_default (r ∷ rs) = r ∷ rs

-- `ScanContext()`
unfoldable pub default_context : ScanContext
default_context = record {
  internet_exposed = false;
  asset_criticality = 5;
  data_lifetime_years = 1;
  environment = codes "unknown";
}

unfoldable pub context_or_default : Option ScanContext → ScanContext
unfolding default_context
context_or_default none = default_context
context_or_default (some c) = c

unfoldable pub assess : CryptoObservation → Option ScanContext → Finding
unfolding total all_reasons severity_for context_or_default
assess o context =
    let c = context_or_default context in
    let d = crypto_draft o in
    record {
      observation = o;
      risk = record {
        observation_id = o.id;
        score = total o c;
        severity = severity_for (total o c);
        quantum_status = d.quantum_status;
        reasons = or_default (all_reasons o c);
        migration_target = d.migration_target;
        migration_strategy = d.migration_strategy;
        security_bits = d.security_bits;
        policy_id = none;
        policy_version = none;
        policy_name = none;
        policy_status = none;
        policy_reasons = [];
        policy_controls = [];
        policy_rules_hash = none;
      };
    }
