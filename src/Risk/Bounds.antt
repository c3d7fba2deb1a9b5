-- ===== src/Risk/Bounds.antt =====
-- The ranges of the components of the score (src/cryptohawk/risk/engine.py).
use crypto_hawk.Prelude.{ℕ, ◌+◌, ◌≤◌, ◌≡◌, Text, codes, arith, Option-cases, inl, inr}
use crypto_hawk.Domain.Models.{CryptoObservation, ScanContext, IsContext}
use crypto_hawk.Knowledge.{get_profile}
use crypto_hawk.Knowledge.Entries.{get_profile-IsSound}
use crypto_hawk.Risk.Engine.{
  Draft, initial, protocol_rules, profile_rules, rsa_signature_rules, rsa_size_rules,
  aes_size_rules, sized_rules, base_draft, crypto_draft, internet_points, lifetime_points, total,
  known_size,
}

pub record Within (d : Draft) : Type 0 where
  pub weakness_capped : d.weakness ≤ 40
  pub quantum_capped : d.quantum ≤ 25

protocol_rules-Within : (o : CryptoObservation) (d : Draft) → Within d → Within (protocol_rules o d)
unfolding protocol_rules
protocol_rules-Within o d h = ground arith

profile_rules-Within :
    (family : Text) (d : Draft) → Within d → Within (profile_rules (get_profile family) d)
unfolding profile_rules
profile_rules-Within family d h = elim (Option-cases (get_profile family)) [
  | inl e ↦ rw e h
  | inr (p, e) ↦ rw e (ground (arith, get_profile-IsSound family e))
]

rsa_signature_rules-Within :
    (o : CryptoObservation) (d : Draft) → Within d → Within (rsa_signature_rules o d)
unfolding rsa_signature_rules
rsa_signature_rules-Within o d h = ground arith

sized_rules-Within :
    (family : Text) (rules : ℕ → Draft → Draft) (o : CryptoObservation) (d : Draft)
    → ((size : ℕ) → Within (rules size d))
    → Within d
    → Within (sized_rules family rules o d)
unfolding sized_rules
sized_rules-Within family rules o d keeps h = ground (arith, keeps (known_size o.key_size))

rsa_size_rules-Within : (d : Draft) → Within d → (size : ℕ) → Within (rsa_size_rules size d)
unfolding rsa_size_rules
rsa_size_rules-Within d h size = ground arith

aes_size_rules-Within : (d : Draft) → Within d → (size : ℕ) → Within (aes_size_rules size d)
unfolding aes_size_rules
aes_size_rules-Within d h size = ground arith

pub base_draft-Within : (o : CryptoObservation) → Within (base_draft o)
unfolding base_draft
base_draft-Within o =
    rsa_signature_rules-Within o _
      (profile_rules-Within o.family _ (protocol_rules-Within o initial (omega arith)))

pub crypto_draft-Within : (o : CryptoObservation) → Within (crypto_draft o)
unfolding crypto_draft
crypto_draft-Within o =
    sized_rules-Within (codes "AES") aes_size_rules o _ (aes_size_rules-Within _ rsa) rsa
  where
    rsa : Within (sized_rules (codes "RSA") rsa_size_rules o (base_draft o))
    rsa =
        sized_rules-Within (codes "RSA") rsa_size_rules o _
          (rsa_size_rules-Within _ (base_draft-Within o)) (base_draft-Within o)

-- For a context that its field constraints admit, the five components lie in their documented
-- ranges and the score is their sum: the cap at 100 never cuts anything off.
pub total-eq-sum :
    (o : CryptoObservation) (c : ScanContext)
    → IsContext c
    → (total o c
        ≡ (crypto_draft o).weakness
          + (crypto_draft o).quantum
          + internet_points c
          + lifetime_points c
          + c.asset_criticality)
      × ((crypto_draft o).weakness ≤ 40)
      × ((crypto_draft o).quantum ≤ 25)
      × (internet_points c ≤ 15)
      × (lifetime_points c ≤ 10)
      × (total o c ≤ 100)
unfolding total
total-eq-sum o c h = ground (arith, crypto_draft-Within o)
