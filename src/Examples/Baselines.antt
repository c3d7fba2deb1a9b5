-- ===== src/Examples/Baselines.antt =====
-- Baselines applied to a finding by the evaluator of src/cryptohawk/risk/policy.py.
use crypto_hawk.Prelude.{◌≡◌, ◌≤◌, ◌⊎◌, Bool, true, some, codes, arith, [], ◌∷◌, is_some, not, ◌||◌}
use crypto_hawk.Domain.Models.{PolicyDisposition, pass, review, fail}
use crypto_hawk.Domain.Rules.{CryptoPolicyRules, EffectiveCryptoPolicy, tls_1_2, tls_1_3}
use crypto_hawk.Domain.Findings.{Control, Finding}
use crypto_hawk.Risk.{assess, is_vulnerable}
use crypto_hawk.Policy.{apply, status_order, is_disallowed}
use crypto_hawk.Policy.Controls.{has, IsAscending}
use crypto_hawk.Policy.Demands.{demand}
use crypto_hawk.Policy.Strictest.{apply-strictest, apply-controls, demanded_level}
use crypto_hawk.Policy.Strictness.{IsStricter, apply-strictness_mono}
use crypto_hawk.Examples.Scoring.{found_in, reachable}

abbrev default_rules : CryptoPolicyRules
default_rules = record {
  minimum_rsa_bits = 2048;
  minimum_aes_bits = 128;
  minimum_tls_version = tls_1_2;
  disallowed_families = codes "MD5" ∷ codes "SHA-1" ∷ codes "DES" ∷ [];
  quantum_vulnerable_default = review;
  internet_exposed_quantum_action = review;
  long_lived_data_years = 25;
  unknown_family_action = review;
  minimum_detection_confidence = 750000;
}

abbrev strict_rules : CryptoPolicyRules
strict_rules = record default_rules {
  minimum_rsa_bits = 3072;
  minimum_tls_version = tls_1_3;
  internet_exposed_quantum_action = fail;
  long_lived_data_years = 10;
}

abbrev policy_of : CryptoPolicyRules → EffectiveCryptoPolicy
policy_of rules = record {
  pack = record {
    id = 1;
    workspace_id = 1;
    slug = codes "baseline";
    name = codes "Baseline";
    description = [];
    built_in = true;
    created_by = codes "admin";
    created_at = 0;
  };
  version = record {
    id = 2;
    policy_id = 1;
    workspace_id = 1;
    version = 1;
    rules = rules;
    rules_hash = codes "0";
    created_by = codes "admin";
    created_at = 0;
  };
  assigned_by = codes "admin";
  assigned_at = 0;
}

abbrev finding : Finding
finding = assess (found_in (codes "RSA") (some 2048)) (some reachable)

apply-strictest_example :
    let d =
      demand finding.observation reachable strict_rules
        (is_vulnerable finding.risk.quantum_status) in
    (status : PolicyDisposition) × ((apply finding reachable
        (policy_of strict_rules)).risk.policy_status
      ≡ some status)
    × ((x : Control) → demanded_level (d x) ≤ status_order status)
    × ((status ≡ pass) ⊎ ((x : Control) × (d x ≡ some status)))
apply-strictest_example = apply-strictest finding reachable (policy_of strict_rules)

apply-controls_example :
    let d =
      demand finding.observation reachable default_rules
        (is_vulnerable finding.risk.quantum_status) in
    ((x : Control)
      → has x (apply finding reachable (policy_of default_rules)).risk.policy_controls
        ≡ is_some (d x))
    × IsAscending (apply finding reachable (policy_of default_rules)).risk.policy_controls
apply-controls_example = apply-controls finding reachable (policy_of default_rules)

implies_self : (b : Bool) → (not b || b) ≡ true
implies_self b = ground arith

strict_rules-IsStricter : IsStricter default_rules strict_rules
strict_rules-IsStricter = record {
  rsa = omega arith;
  aes = omega arith;
  tls = omega arith;
  families = λ family. implies_self (is_disallowed family default_rules.disallowed_families);
  quantum = omega arith;
  internet = omega arith;
  lifetime = omega arith;
  unknown = omega arith;
  confidence = omega arith;
}

apply-strictness_mono_example :
    (s : PolicyDisposition) × (t : PolicyDisposition) × ((apply finding reachable
        (policy_of default_rules)).risk.policy_status
      ≡ some s)
    × ((apply finding reachable (policy_of strict_rules)).risk.policy_status ≡ some t)
    × (status_order s ≤ status_order t)
    × ((apply finding reachable (policy_of default_rules)).risk.score ≡ finding.risk.score)
    × ((apply finding reachable (policy_of strict_rules)).risk.score ≡ finding.risk.score)
apply-strictness_mono_example =
    apply-strictness_mono finding reachable (policy_of default_rules) (policy_of strict_rules)
      strict_rules-IsStricter
