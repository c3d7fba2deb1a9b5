-- ===== src/Risk/Families.antt =====
-- Findings by what the profile of their family says (src/cryptohawk/risk/engine.py).
use crypto_hawk.Prelude.{
  ◌+◌, ◌≤◌, ◌≡◌, ap, ◌≢◌, true, false, ◌⊎◌, inl, inr, some, Text, codes, text_eq, text_eq_iff,
  arith, Bool-cases, if◌then◌else◌,
}
use crypto_hawk.Domain.Models.{CryptoObservation, ScanContext, IsContext, safe, vulnerable}
use crypto_hawk.Knowledge.{AlgorithmProfile, get_profile}
use crypto_hawk.Knowledge.Entries.{get_profile-IsSound, get_profile_aes, get_profile_rsa}
use crypto_hawk.Risk.Engine.{
  severity_for, rsa_size_rules, sized_rules, base_draft, crypto_draft, total, assess,
  internet_points, lifetime_points,
}
use crypto_hawk.Risk.Monotone.{rank}

module _ (o : CryptoObservation) (p : AlgorithmProfile)
    (found : get_profile o.family ≡ some p) where
  not_family :
      (t : Text) (q : AlgorithmProfile)
      → get_profile t ≡ some q
      → p ≢ q
      → text_eq o.family t ≡ false
  not_family t q entry ne = elim (Bool-cases (text_eq o.family t)) [
    | inl e ↦ absurd (ne (cc (ap get_profile ((text_eq_iff _ _).0 e), entry, found)))
    | inr e ↦ e
  ]

  not_aes :
      (p.deprecated ≡ true) ⊎ (p.quantum_status ≡ safe) → text_eq o.family (codes "AES") ≡ false
  not_aes h =
      let (q, entry, weight, status, fresh) = get_profile_aes in
      not_family (codes "AES") q entry (λ e. ground (
        arith,
        ap (λ (x : AlgorithmProfile). x.deprecated) e,
        ap (λ (x : AlgorithmProfile). x.quantum_status) e,
      ))

  not_rsa : p.quantum_status ≡ safe → text_eq o.family (codes "RSA") ≡ false
  not_rsa h =
      let (q, entry, weight, status, fresh) = get_profile_rsa in
      not_family (codes "RSA") q entry
        (λ e. ground (arith, ap (λ (x : AlgorithmProfile). x.quantum_status) e))

  base_weights :
      ((base_draft o).weakness ≡ p.weakness_weight)
      × (p.quantum_status ≡ vulnerable → (base_draft o).quantum ≡ 25)
      × (p.quantum_status ≡ safe → (base_draft o).quantum ≡ 0)
  unfolding base_draft
  base_weights = rw found (ground arith)

  deprecated_draft :
      p.deprecated ≡ true → (32 ≤ (crypto_draft o).weakness) × ((crypto_draft o).quantum ≡ 25)
  unfolding crypto_draft sized_rules rsa_size_rules
  deprecated_draft h =
      rw (not_aes (inl h)) (ground (arith, base_weights, get_profile-IsSound o.family found))

  safe_draft :
      p.quantum_status ≡ safe → ((crypto_draft o).weakness ≡ 0) × ((crypto_draft o).quantum ≡ 0)
  unfolding crypto_draft sized_rules
  safe_draft h =
      rw (not_aes (inr h), not_rsa h)
        (ground (arith, base_weights, get_profile-IsSound o.family found))

-- In a context that its field constraints admit, a finding whose family has a deprecated profile
-- scores at least 58 and is rated medium or above; on an internet-exposed asset it scores at least
-- 73 and is rated high or critical.
pub assess-deprecated :
    (o : CryptoObservation) (p : AlgorithmProfile) (c : ScanContext)
    → get_profile o.family ≡ some p
    → IsContext c
    → p.deprecated ≡ true
    → ((if c.internet_exposed then 73 else 58) ≤ (assess o (some c)).risk.score)
      × ((if c.internet_exposed then 3 else 2) ≤ rank (assess o (some c)).risk.severity)
unfolding assess total severity_for
assess-deprecated o p c found h dep = ground (arith, deprecated_draft o p found dep)

-- In a context that its field constraints admit, a finding whose family has a quantum-safe profile
-- scores only what the context adds, at most 35, and is rated medium or below.
pub assess-safe :
    (o : CryptoObservation) (p : AlgorithmProfile) (c : ScanContext)
    → get_profile o.family ≡ some p
    → IsContext c
    → p.quantum_status ≡ safe
    → ((assess o (some c)).risk.score ≡ internet_points c + lifetime_points c + c.asset_criticality)
      × ((assess o (some c)).risk.score ≤ 35)
      × (rank (assess o (some c)).risk.severity ≤ 2)
unfolding assess total severity_for
assess-safe o p c found h secure = ground (arith, safe_draft o p found secure)
