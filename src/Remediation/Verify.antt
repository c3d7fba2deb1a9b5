-- ===== src/Remediation/Verify.antt =====
-- `verify` of src/cryptohawk/storage/remediation.py: an item is verified by the evidence of a scan.
use crypto_hawk.Prelude.{
  ℕ, Bool, true, false, ◌&&◌, ◌||◌, Option, none, some, List, [], ◌∷◌, Result, ok, err, value_error,
  lookup_error, Table, lookup, modify, ltb, is_none, ◌==◌, if◌then◌else◌,
}
use crypto_hawk.Store.{ScanJobRecord, ScanStatus, succeeded}
use crypto_hawk.Continuous.Records.{ObservationOccurrenceRecord, ScanSnapshotRecord}
use crypto_hawk.Remediation.Items.{
  MigrationItemRecord, RemediationStatus, ready_for_verification, verified, in_progress,
}

pub record EvidenceStore : Type 0 where
  pub jobs : Table ScanJobRecord
  pub snapshots : Table ScanSnapshotRecord
  pub occurrences : List ObservationOccurrenceRecord

abbrev pub is_succeeded : ScanStatus → Bool
is_succeeded succeeded = true
is_succeeded _ = false

abbrev pub is_ready : RemediationStatus → Bool
is_ready ready_for_verification = true
is_ready _ = false

-- The successful scan of the item's asset in the item's workspace.
unfoldable pub is_successful_scan : ℕ → ℕ → ScanJobRecord → Bool
is_successful_scan workspace asset job =
    (job.workspace_id == workspace) && ((job.asset_id == asset) && is_succeeded job.status)

-- `ORDER BY completed_at DESC, job_id DESC`, and the first row: its job and when it was completed.
unfoldable pub newer : ℕ × ℕ → Option (ℕ × ℕ) → ℕ × ℕ
newer a none = a
newer (job, at) (some (job', at')) =
    if ltb at at' || ((at == at') && ltb job job') then (job', at') else (job, at)

unfoldable pub latest_snapshot : ℕ → ℕ → Table ScanSnapshotRecord → Option (ℕ × ℕ)
latest_snapshot workspace asset [] = none
latest_snapshot workspace asset ((job, s) ∷ rest) =
    let found = latest_snapshot workspace asset rest in
    if (s.workspace_id == workspace) && (s.asset_id == asset)
    then some (newer (job, s.completed_at) found)
    else found

-- `latest_snapshot is not None` and it is the one of the job
unfoldable pub is_latest : ℕ → Option (ℕ × ℕ) → Bool
is_latest job none = false
is_latest job (some (latest, at)) = latest == job

-- `source_snapshot is None`, or completed before
unfoldable pub is_newer_than : ℕ → Option ScanSnapshotRecord → Bool
is_newer_than completed none = true
is_newer_than completed (some source) = ltb source.completed_at completed

unfoldable pub find_occurrence :
    ℕ → ℕ → List ObservationOccurrenceRecord → Option ObservationOccurrenceRecord
find_occurrence job fingerprint [] = none
find_occurrence job fingerprint (o ∷ rest) =
    if (o.job_id == job) && (o.fingerprint == fingerprint)
    then some o
    else find_occurrence job fingerprint rest

-- The row after a verification, by what the scan still found of the exposure.
unfoldable pub conclude :
    ℕ
    → ScanSnapshotRecord
    → Option ObservationOccurrenceRecord
    → ℕ
    → MigrationItemRecord
    → MigrationItemRecord
conclude job snapshot none now row = record row {
  verification_job_id = some job;
  verification_evidence = some (record {
    verification_job_id = job;
    verification_completed_at = snapshot.completed_at;
    source_scan_job_id = row.source_scan_job_id;
    observation_fingerprint = row.observation_fingerprint;
    still_present = none;
  });
  updated_at = now;
  status = verified;
  verified_at = some now;
}
conclude job snapshot (some o) now row = record row {
  verification_job_id = some job;
  verification_evidence = some (record {
    verification_job_id = job;
    verification_completed_at = snapshot.completed_at;
    source_scan_job_id = row.source_scan_job_id;
    observation_fingerprint = row.observation_fingerprint;
    still_present = some (record {
      risk_score = o.risk_score;
      severity = o.severity;
      evidence_hash = o.evidence_hash;
    });
  });
  updated_at = now;
  status = in_progress;
  verified_at = none;
}

-- The checks on the scan, in the order of the code, and the conclusion.
unfoldable pub verify_row :
    ℕ → ℕ → EvidenceStore → ℕ → MigrationItemRecord → Result (MigrationItemRecord × Bool)
verify_row workspace job store now row =
    if is_ready row.status
    then elim (lookup job store.jobs) [
      | none ↦ err value_error
      | some scan ↦
          if is_successful_scan workspace row.asset_id scan
          then elim (lookup job store.snapshots) [
            | none ↦ err value_error
            | some snapshot ↦
                if is_latest job (latest_snapshot workspace row.asset_id store.snapshots)
                then if is_newer_than snapshot.completed_at
                    (lookup row.source_scan_job_id store.snapshots)
                  then ok (
                    conclude job snapshot
                        (find_occurrence job row.observation_fingerprint store.occurrences) now row,
                    is_none (find_occurrence job row.observation_fingerprint store.occurrences),
                  )
                  else err value_error
                else err value_error
          ]
          else err value_error
    ]
    else err value_error

abbrev pub keep_verified :
    ℕ
    → Table MigrationItemRecord
    → Result (MigrationItemRecord × Bool)
    → Result (Table MigrationItemRecord × MigrationItemRecord × Bool)
keep_verified id items (err e) = err e
keep_verified id items (ok (row, resolved)) = ok (modify id (λ _. row) items, row, resolved)

unfoldable pub verify :
    ℕ
    → ℕ
    → ℕ
    → EvidenceStore
    → ℕ
    → Table MigrationItemRecord
    → Result (Table MigrationItemRecord × MigrationItemRecord × Bool)
verify workspace id job store now items = elim (lookup id items) [
  | none ↦ err lookup_error
  | some row ↦
      if row.workspace_id == workspace
      then keep_verified id items (verify_row workspace job store now row)
      else err lookup_error
]
