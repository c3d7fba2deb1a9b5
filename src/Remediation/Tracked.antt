-- ===== src/Remediation/Tracked.antt =====
-- The fields of a migration item that its status decides, through the three operations of
-- src/cryptohawk/storage/remediation.py on a row.
use crypto_hawk.Prelude.{
  ℕ, Bool, true, false, Option, none, some, ok, Text, arith, is_some, is_none, ◌&&◌, leb, length,
  strip, strip_idem, Option-cases, Result-cases, inl, inr, ◌≡◌, refl, ◌==◌,
}
use crypto_hawk.Continuous.Records.{ObservationOccurrenceRecord, ScanSnapshotRecord}
use crypto_hawk.Remediation.Items.{
  VerificationEvidence, MigrationItemRecord, RemediationStatus, accepted_risk, verified, Request,
  ScopedFinding, new_item,
}
use crypto_hawk.Remediation.Update.{
  Value, null, other, given, Changes, valid_reason, reason_to_use, enter, change_status,
  change_fields, set_due_date, set_reason, update_row, is_verified,
}
use crypto_hawk.Remediation.Verify.{EvidenceStore, verify_row, conclude, is_ready}
use crypto_hawk.Remediation.Evidence.{Concludes, verify_row-Concludes}

-- A reason of five characters or more for an accepted risk, and none otherwise.
unfoldable pub is_accounted : RemediationStatus → Option Text → Bool
is_accounted accepted_risk (some reason) = leb 5 (length (strip reason))
is_accounted accepted_risk none = false
is_accounted _ (some reason) = false
is_accounted _ none = true

-- A verified item names the scan that verified it, whose evidence has no exposure left.
unfoldable pub is_supported : RemediationStatus → Option ℕ → Option VerificationEvidence → Bool
is_supported verified (some job) (some evidence) =
    (evidence.verification_job_id == job) && is_none evidence.still_present
is_supported verified _ none = false
is_supported verified none (some evidence) = false
is_supported _ _ _ = true

-- An item has a time of verification when it is verified, and only then.
unfoldable pub IsTracked : MigrationItemRecord → Type 0
IsTracked row =
    (is_some row.verified_at ≡ is_verified row.status)
    × (is_accounted row.status row.acceptance_reason ≡ true)
    × (is_supported row.status row.verification_job_id row.verification_evidence ≡ true)

valid_reason-length :
    (value : Value Text) (reason : Text)
    → valid_reason value ≡ ok reason
    → leb 5 (length (strip reason)) ≡ true
unfolding valid_reason
valid_reason-length null reason e = ground arith
valid_reason-length other reason e = ground arith
valid_reason-length (given raw) reason e = ground (arith, strip_idem raw)

enter-IsTracked :
    (target : RemediationStatus) (changes : Changes) (row new : MigrationItemRecord)
    → is_verified target ≡ false
    → enter target changes row ≡ ok new
    → IsTracked new
unfolding enter IsTracked is_accounted is_supported
enter-IsTracked target changes row new unverified e =
    elim (Result-cases (valid_reason (reason_to_use changes row))) [
      | inl (reason, r) ↦ ground (arith, r, valid_reason-length _ reason r)
      | inr (x, r) ↦ ground (arith, r)
    ]

change_status-IsTracked :
    (changes : Changes) (row new : MigrationItemRecord)
    → IsTracked row
    → change_status changes row ≡ ok new
    → IsTracked new
unfolding change_status
change_status-IsTracked changes row new h e = elim (Option-cases changes.status) [
  | inl s ↦ ground (arith, s)
  | inr (none, s) ↦ ground (arith, s)
  | inr (some target, s) ↦ ground (arith, s, enter-IsTracked target changes row new)
]

set_reason-IsTracked :
    (o : Option (Value Text)) (row new : MigrationItemRecord)
    → IsTracked row
    → set_reason o row ≡ ok new
    → IsTracked new
unfolding set_reason IsTracked is_accounted is_supported
set_reason-IsTracked none row new h e = ground arith
set_reason-IsTracked (some value) row new h e = elim (Result-cases (valid_reason value)) [
  | inl (reason, r) ↦ ground (arith, r, valid_reason-length _ reason r)
  | inr (x, r) ↦ ground (arith, r)
]

set_due_date-IsTracked :
    (o : Option (Value ℕ)) (row new : MigrationItemRecord)
    → IsTracked row
    → set_due_date o row ≡ ok new
    → IsTracked new
unfolding set_due_date IsTracked
set_due_date-IsTracked o row new h e = ground arith

change_fields-IsTracked :
    (changes : Changes) (row : MigrationItemRecord)
    → IsTracked row
    → IsTracked (change_fields changes row)
unfolding change_fields IsTracked
change_fields-IsTracked changes row h = h

pub update_row-IsTracked :
    (changes : Changes) (now : ℕ) (row new : MigrationItemRecord)
    → IsTracked row
    → update_row changes now row ≡ ok new
    → IsTracked new
unfolding update_row IsTracked
update_row-IsTracked changes now row new h e = elim (Result-cases (change_status changes row)) [
  | inr (x, r) ↦ ground (arith, r)
  | inl (entered, r) ↦
      elim (Result-cases (set_due_date changes.due_date (change_fields changes entered))) [
        | inr (x, d) ↦ ground (arith, r, d)
        | inl (dated, d) ↦ elim (Result-cases (set_reason changes.acceptance_reason dated)) [
          | inr (x, a) ↦ ground (arith, r, d, a)
          | inl (reasoned, a) ↦ ground (
            arith,
            r,
            d,
            a,
            set_reason-IsTracked changes.acceptance_reason dated reasoned
                (set_due_date-IsTracked changes.due_date (change_fields changes entered) dated
                  (change_fields-IsTracked changes entered
                    (change_status-IsTracked changes row entered h r))
                  d)
                a,
          )
        ]
      ]
]

conclude-IsTracked :
    (job : ℕ) (snapshot : ScanSnapshotRecord) (o : Option ObservationOccurrenceRecord) (now : ℕ)
    (row : MigrationItemRecord)
    → row.acceptance_reason ≡ none
    → IsTracked (conclude job snapshot o now row)
unfolding conclude IsTracked is_accounted is_supported
conclude-IsTracked job snapshot o now row h = ground arith

ready-none :
    (row : MigrationItemRecord)
    → IsTracked row
    → is_ready row.status ≡ true
    → row.acceptance_reason ≡ none
unfolding IsTracked is_accounted
ready-none row h r = ground arith

pub verify_row-IsTracked :
    (workspace job : ℕ) (store : EvidenceStore) (now : ℕ) (row : MigrationItemRecord)
    (out : MigrationItemRecord × Bool)
    → IsTracked row
    → verify_row workspace job store now row ≡ ok out
    → IsTracked out.0
unfolding Concludes
verify_row-IsTracked workspace job store now row out h e =
    let (s, same, res) = verify_row-Concludes workspace job store now row out e in
    rw same (conclude-IsTracked job s.snapshot _ now row (ready-none row h s.was_ready))

pub new_item-IsTracked :
    (finding : ℕ) (r : Request) (f : ScopedFinding) (o : ObservationOccurrenceRecord) (now : ℕ)
    → IsTracked (new_item finding r f o now)
unfolding new_item IsTracked is_accounted is_supported
new_item-IsTracked finding r f o now = (refl, refl, refl)
