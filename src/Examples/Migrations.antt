-- ===== src/Examples/Migrations.antt =====
-- Migration items of src/cryptohawk/storage/remediation.py.
use crypto_hawk.Prelude.{
  ◌≡◌, refl, true, none, some, codes, [], ◌∷◌, lookup, insert, modify, ok, Table, is_space,
  keep_unless_blank, lstrip, rstrip, strip, ℕ,
}
use crypto_hawk.Domain.Models.{high, vulnerable}
use crypto_hawk.Risk.{assess}
use crypto_hawk.Examples.Scoring.{found_in, reachable}
use crypto_hawk.Store.{succeeded, tls}
use crypto_hawk.Continuous.Records.{ScanSnapshotRecord, api, ObservationOccurrenceRecord}
use crypto_hawk.Remediation.{
  MigrationItemRecord, Request, ScopedFinding, RemediationStatus, in_progress,
  ready_for_verification, open_status, high_priority, Changes, update_item, create_from_finding,
  EvidenceStore, verify, new_item, change_fields, change_status, enter, find_occurrence, is_allowed,
  is_latest, is_newer_than, is_successful_scan, is_taken, later_of, latest_occurrence,
  latest_snapshot, newer, priority_from_severity, set_due_date, set_reason, update_row, verify_row,
}
use crypto_hawk.Remediation.Tracked.{IsTracked}
use crypto_hawk.Remediation.Transitions.{is_move, update_item-is_move}
use crypto_hawk.Remediation.Verified.{Grounded, verify-Grounded}
use crypto_hawk.Remediation.Works.{Works, here, next, creates, updates, verifies, Works-IsTracked}

abbrev opened : MigrationItemRecord
opened = record {
  workspace_id = 1;
  asset_id = 5;
  observation_fingerprint = 77;
  source_finding_id = 9;
  source_scan_job_id = 10;
  title = codes "Migrate RSA on app";
  owner = none;
  status = open_status;
  priority = high_priority;
  target_algorithm = none;
  due_date = none;
  notes = none;
  acceptance_reason = none;
  verification_job_id = none;
  verified_at = none;
  verification_evidence = none;
  created_by = codes "ann";
  created_at = 30;
  updated_at = 30;
}

abbrev request : Request
request = record {
  created_by = codes "ann";
  owner = none;
  priority = none;
  target_algorithm = none;
  due_date = none;
  notes = none;
}

abbrev scoped : ScopedFinding
scoped = record {
  workspace_id = 1;
  managed_asset_id = 5;
  algorithm = codes "RSA";
  asset_name = codes "app";
  severity = high;
  migration_target = none;
}

abbrev seen : ObservationOccurrenceRecord
seen = record {
  job_id = 10;
  workspace_id = 1;
  asset_id = 5;
  fingerprint = 77;
  finding_id = 9;
  observed_at = 20;
  risk_score = 64;
  severity = high;
  quantum_status = vulnerable;
  evidence_hash = 3;
  finding_payload = assess (found_in (codes "RSA") (some 2048)) (some reachable);
  scanner_version = codes "0.1";
  policy_version = codes "risk-engine-v1";
}

abbrev to_status : RemediationStatus → Changes
to_status target = record {
  unknown_fields = [];
  owner = none;
  status = some (some target);
  priority = none;
  target_algorithm = none;
  due_date = none;
  notes = none;
  acceptance_reason = none;
}

abbrev started : MigrationItemRecord
started = record opened { status = in_progress; updated_at = 40 }

abbrev ready : MigrationItemRecord
ready = record opened { status = ready_for_verification; updated_at = 50 }

abbrev snapshot_at : ℕ → ScanSnapshotRecord
snapshot_at at = record {
  workspace_id = 1;
  asset_id = 5;
  origin = api;
  schedule_id = none;
  scheduled_for = none;
  completed_at = at;
  finding_count = 1;
  scanner_version = codes "0.1";
  policy_version = codes "risk-engine-v1";
  fingerprint_set_hash = 0;
}

-- A later scan of the asset, without the exposure.
abbrev scans : EvidenceStore
scans = record {
  jobs =
      (
        12,
        record {
          workspace_id = 1;
          asset_id = 5;
          kind = tls;
          status = succeeded;
          requested_at = 55;
          started_at = some 56;
          finished_at = some 60;
          findings_count = 0;
          error_message = none;
        },
      )
      ∷ [];
  snapshots = (12, snapshot_at 60) ∷ (10, snapshot_at 20) ∷ [];
  occurrences = seen ∷ [];
}

opened_first :
    create_from_finding 7 1 9 request ((9, scoped) ∷ []) (seen ∷ []) 30 []
    ≡ ok ((7, opened) ∷ [], opened)
unfolding create_from_finding new_item strip rstrip lstrip is_space keep_unless_blank lookup
    latest_occurrence is_taken insert later_of priority_from_severity
opened_first = refl

starts :
    update_item 1 7 (to_status in_progress) 40 ((7, opened) ∷ []) ≡ ok ((7, started) ∷ [], started)
unfolding update_item lookup update_row change_status is_allowed enter set_due_date set_reason
    modify change_fields
starts = refl

then_ready :
    update_item 1 7 (to_status ready_for_verification) 50 ((7, started) ∷ [])
    ≡ ok ((7, ready) ∷ [], ready)
unfolding update_item lookup update_row change_status is_allowed enter set_due_date set_reason
    modify change_fields
then_ready = refl

verifies_ready :
    (t : Table MigrationItemRecord) × (new : MigrationItemRecord) × (verify 1 7 12 scans 70
        ((7, ready) ∷ [])
      ≡ ok (t, new, true))
    × (lookup 7 t ≡ some new)
unfolding verify lookup verify_row is_successful_scan is_latest latest_snapshot newer is_newer_than
    find_occurrence modify
verifies_ready = (_, _, refl, refl)

history : Works [] verifies_ready.0
unfolding lookup
history =
    next
      (next
        (next
          (next here
            (creates 7 1 9 request ((9, scoped) ∷ []) (seen ∷ []) 30 opened refl opened_first))
          (updates 1 7 (to_status in_progress) 40 started starts))
        (updates 1 7 (to_status ready_for_verification) 50 ready then_ready))
      (verifies 1 7 12 scans 70 verifies_ready.1 true verifies_ready.2)

Works-IsTracked_example : IsTracked verifies_ready.1
Works-IsTracked_example =
    Works-IsTracked verifies_ready.0 7 verifies_ready.1 history verifies_ready.3

update_item-is_move_example :
    (row : MigrationItemRecord) × (lookup 7 ((7, opened) ∷ []) ≡ some row)
    × (row.workspace_id ≡ 1)
    × (is_move row.status in_progress ≡ true)
    × (lookup 7 ((7, started) ∷ []) ≡ some started)
update_item-is_move_example =
    update_item-is_move 1 7 (to_status in_progress) 40 ((7, opened) ∷ []) ((7, started) ∷ [])
      started starts

verify-Grounded_example :
    Grounded 1 7 12 scans ((7, ready) ∷ []) verifies_ready.0 verifies_ready.1 true
verify-Grounded_example =
    verify-Grounded 1 7 12 scans 70 ((7, ready) ∷ []) verifies_ready.0 verifies_ready.1 true
      verifies_ready.2
