-- ===== src/Policy/Strictness.antt =====
-- Baselines compared rule by rule, for the evaluator of src/cryptohawk/risk/policy.py.
use crypto_hawk.Prelude.{
  ℕ, ◌≤◌, ◌≡◌, refl, Bool, true, Option, none, some, Text, arith, inl, inr, remove, ◌⊎◌, not, ◌||◌,
}
use crypto_hawk.Domain.Models.{CryptoObservation, ScanContext, PolicyDisposition, pass}
use crypto_hawk.Domain.Rules.{
  CryptoPolicyRules, EffectiveCryptoPolicy, TlsVersion, tls_1_2, tls_1_3, version_text,
}
use crypto_hawk.Domain.Findings.{
  Control, detection_confidence, disallowed_family, harvest_now_decrypt_later,
  internet_quantum_exposure, minimum_aes_bits, minimum_rsa_bits, minimum_tls_version,
  quantum_vulnerable, unknown_family, Finding,
}
use crypto_hawk.Knowledge.{normalize_family}
use crypto_hawk.Knowledge.Canonical.{runs}
use crypto_hawk.Risk.{is_vulnerable}
use crypto_hawk.Policy.Evaluator.{
  status_order, tls_rank, is_disallowed, is_unknown_algorithm, apply,
}
use crypto_hawk.Policy.Demands.{demand}
use crypto_hawk.Policy.Strictest.{apply-strictest, demanded_level}

abbrev pub tls_order : TlsVersion → ℕ
tls_order tls_1_2 = 12
tls_order tls_1_3 = 13

-- `s` asks for at least what `r` asks for, in every rule.
pub record IsStricter (r s : CryptoPolicyRules) : Type 0 where
  pub rsa : r.minimum_rsa_bits ≤ s.minimum_rsa_bits
  pub aes : r.minimum_aes_bits ≤ s.minimum_aes_bits
  pub tls : tls_order r.minimum_tls_version ≤ tls_order s.minimum_tls_version
  pub families :
      (family : Text)
      → (not (is_disallowed family r.disallowed_families)
          || is_disallowed family s.disallowed_families)
        ≡ true
  pub quantum :
      status_order r.quantum_vulnerable_default ≤ status_order s.quantum_vulnerable_default
  pub internet :
      status_order r.internet_exposed_quantum_action
      ≤ status_order s.internet_exposed_quantum_action
  pub lifetime : s.long_lived_data_years ≤ r.long_lived_data_years
  pub unknown : status_order r.unknown_family_action ≤ status_order s.unknown_family_action
  pub confidence : r.minimum_detection_confidence ≤ s.minimum_detection_confidence

tls_rank-version : (v : TlsVersion) → tls_rank (some (version_text v)) ≡ some (tls_order v)
unfolding tls_rank runs remove
tls_rank-version tls_1_2 = refl
tls_rank-version tls_1_3 = refl

-- What a stricter baseline demands where the milder one demands `e`.
abbrev Covers : Option PolicyDisposition → PolicyDisposition → Type 0
Covers none e = ⊥
Covers (some d) e = status_order e ≤ status_order d

module _ (o : CryptoObservation) (c : ScanContext) (r s : CryptoPolicyRules) (vulnerable : Bool)
    (h : IsStricter r s) where
  demand-Covers :
      (x : Control) (e : PolicyDisposition)
      → demand o c r vulnerable x ≡ some e
      → Covers (demand o c s vulnerable x) e
  unfolding is_unknown_algorithm
  demand-Covers disallowed_family e d = ground (arith, h.families (normalize_family o.family))
  demand-Covers minimum_rsa_bits e d = ground (arith, h.rsa)
  demand-Covers minimum_aes_bits e d = ground (arith, h.aes)
  demand-Covers minimum_tls_version e d =
      ground (
        arith,
        h.tls,
        tls_rank-version r.minimum_tls_version,
        tls_rank-version s.minimum_tls_version,
      )
  demand-Covers quantum_vulnerable e d = ground (arith, h.quantum)
  demand-Covers internet_quantum_exposure e d = ground (arith, h.internet)
  demand-Covers harvest_now_decrypt_later e d = ground (arith, h.lifetime)
  demand-Covers unknown_family e d = ground (arith, h.unknown)
  demand-Covers detection_confidence e d = ground (arith, h.confidence)

-- Covers, with the disposition written out.
Covers-some :
    (d : Option PolicyDisposition) (e : PolicyDisposition)
    → Covers d e
    → (e' : PolicyDisposition) × (d ≡ some e') × (status_order e ≤ status_order e')
Covers-some none e h = absurd h
Covers-some (some d) e h = (d, refl, h)

-- When one policy's rules are stricter than another's in every rule, the status that it gives a
-- finding is at least as severe; and the score that the engine gave stays as it was under both.
pub apply-strictness_mono :
    (f : Finding) (c : ScanContext) (p q : EffectiveCryptoPolicy)
    → IsStricter p.version.rules q.version.rules
    → (s : PolicyDisposition) × (t : PolicyDisposition) × ((apply f c p).risk.policy_status
        ≡ some s)
      × ((apply f c q).risk.policy_status ≡ some t)
      × (status_order s ≤ status_order t)
      × ((apply f c p).risk.score ≡ f.risk.score)
      × ((apply f c q).risk.score ≡ f.risk.score)
apply-strictness_mono f c p q h =
    let (s, hs, _, attained) = apply-strictest f c p in
    let (t, ht, bound, _) = apply-strictest f c q in
    (s, t, hs, ht, ordered s t attained bound, unfold apply in refl, unfold apply in refl)
  where
    vulnerable : Bool
    vulnerable = is_vulnerable f.risk.quantum_status

    ordered :
        (s t : PolicyDisposition)
        → (s ≡ pass)
          ⊎ ((x : Control) × (demand f.observation c p.version.rules vulnerable x ≡ some s))
        → ((x : Control)
            → demanded_level (demand f.observation c q.version.rules vulnerable x) ≤ status_order t)
        → status_order s ≤ status_order t
    ordered s t (inl e) bound = rw e (omega arith)
    ordered s t (inr (x, e)) bound =
        let (e', demanded, le) =
          Covers-some (demand f.observation c q.version.rules vulnerable x) s
            (demand-Covers f.observation c p.version.rules q.version.rules vulnerable h x s e) in
        ground (arith, demanded, le, bound x)
