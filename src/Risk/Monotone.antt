-- ===== src/Risk/Monotone.antt =====
-- Assessments compared by context and by key size (src/cryptohawk/risk/engine.py).
use crypto_hawk.Prelude.{
  ℕ, ◌≤◌, ◌<◌, ◌≡◌, true, some, codes, text_eq, arith, ap, ◌∙◌, ◌⊎◌, inl, inr, not, ◌||◌,
}
use crypto_hawk.Domain.Models.{
  CryptoObservation, ScanContext, Severity, info, low, medium, high, critical,
}
use crypto_hawk.Knowledge.{get_profile}
use crypto_hawk.Knowledge.Entries.{get_profile_aes}
use crypto_hawk.Risk.Engine.{
  Draft, severity_for, rsa_size_rules, sized_rules, base_draft, total, assess,
}
use crypto_hawk.Risk.Bounds.{base_draft-Within}

-- `d` exposes the asset at least as much as `c`.
pub record IsMoreExposed (c d : ScanContext) : Type 0 where
  pub internet : (not c.internet_exposed || d.internet_exposed) ≡ true
  pub lifetime : c.data_lifetime_years ≤ d.data_lifetime_years
  pub criticality : c.asset_criticality ≤ d.asset_criticality

total_mono : (o : CryptoObservation) (c d : ScanContext) → IsMoreExposed c d → total o c ≤ total o d
unfolding total
total_mono o c d h = ground arith

-- The place of a severity in the order from `info` to `critical`.
abbrev pub rank : Severity → ℕ
rank info = 0
rank low = 1
rank medium = 2
rank high = 3
rank critical = 4

pub severity_for_mono : (m n : ℕ) → m ≤ n → rank (severity_for m) ≤ rank (severity_for n)
unfolding severity_for
severity_for_mono m n h = ground arith

-- With the same observation, a context that exposes the asset at least as much has at least the
-- score and at least the severity.
pub assess_mono :
    (o : CryptoObservation) (c d : ScanContext)
    → IsMoreExposed c d
    → ((assess o (some c)).risk.score ≤ (assess o (some d)).risk.score)
      × (rank (assess o (some c)).risk.severity ≤ rank (assess o (some d)).risk.severity)
unfolding assess
assess_mono o c d h =
    (total_mono o c d h, severity_for_mono (total o c) (total o d) (total_mono o c d h))

abbrev pub with_key_size : ℕ → CryptoObservation → CryptoObservation
with_key_size n o = record o { key_size = some n }

rsa_weakness_antitone :
    (d : Draft) (m n : ℕ)
    → m ≤ n
    → d.weakness ≤ 40
    → ((rsa_size_rules n d).weakness ≤ (rsa_size_rules m d).weakness)
      × ((rsa_size_rules n d).quantum ≡ (rsa_size_rules m d).quantum)
unfolding rsa_size_rules
rsa_weakness_antitone d m n h w = ground arith

total-rsa_antitone :
    (o : CryptoObservation) (c : ScanContext) (m n : ℕ)
    → o.family ≡ codes "RSA"
    → 0 < m
    → m ≤ n
    → total (with_key_size n o) c ≤ total (with_key_size m o) c
unfolding total sized_rules text_eq
total-rsa_antitone o c m n e p h =
    rw e (ground (arith, rsa_weakness_antitone (base_draft o) m n, base_draft-Within o))

-- An AES draft starts from the weights of the AES profile, whatever the other fields say.
base_draft-aes :
    (o : CryptoObservation)
    → o.family ≡ codes "AES"
    → ((base_draft o).weakness ≡ 4) × ((base_draft o).quantum ≡ 8)
unfolding base_draft
base_draft-aes o e =
    let (p, found, weight, status, fresh) = get_profile_aes in
    rw (ap get_profile e ∙ found) (ground arith)

total-aes_antitone :
    (o : CryptoObservation) (c : ScanContext) (m n : ℕ)
    → o.family ≡ codes "AES"
    → 0 < m
    → m ≤ n
    → total (with_key_size n o) c ≤ total (with_key_size m o) c
unfolding total sized_rules text_eq
total-aes_antitone o c m n e p h =
    rw e
      (ground (arith, base_draft-aes (with_key_size m o) e, base_draft-aes (with_key_size n o) e))

-- For the family RSA or AES, a larger known key never raises the score or the severity.
pub assess-size_antitone :
    (o : CryptoObservation) (c : ScanContext) (m n : ℕ)
    → (o.family ≡ codes "RSA") ⊎ (o.family ≡ codes "AES")
    → 0 < m
    → m ≤ n
    → ((assess (with_key_size n o) (some c)).risk.score
        ≤ (assess (with_key_size m o) (some c)).risk.score)
      × (rank (assess (with_key_size n o) (some c)).risk.severity
          ≤ rank (assess (with_key_size m o) (some c)).risk.severity)
unfolding assess
assess-size_antitone o c m n e p h =
    let le : total (with_key_size n o) c ≤ total (with_key_size m o) c = elim e [
      | inl rsa ↦ total-rsa_antitone o c m n rsa p h
      | inr aes ↦ total-aes_antitone o c m n aes p h
    ] in
    (le, severity_for_mono _ _ le)
