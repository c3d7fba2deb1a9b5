-- ===== src/Remediation/Verified.antt =====
-- What the two outcomes of `verify` (src/cryptohawk/storage/remediation.py) say of the stored scans.
use crypto_hawk.Prelude.{
  ℕ, Bool, true, Option, none, some, ok, arith, lookup, lookup-modify_self, modify, Bool-cases,
  Option-cases, Result-cases, inl, inr, ◌≡◌, refl, ◌==◌, ◌&&◌, List, [], ◌∷◌, Table, leb, not,
  is_none, if◌then◌else◌, ◌≤◌,
}
use crypto_hawk.Store.{ScanJobRecord, succeeded}
use crypto_hawk.Continuous.Records.{ObservationOccurrenceRecord, ScanSnapshotRecord}
use crypto_hawk.Remediation.Items.{
  MigrationItemRecord, RemediationStatus, ready_for_verification, verified, in_progress,
}
use crypto_hawk.Remediation.Verify.{
  EvidenceStore, verify_row, verify, conclude, find_occurrence, is_latest, latest_snapshot,
  is_newer_than, is_successful_scan, is_ready, newer,
}
use crypto_hawk.Remediation.Evidence.{Scan, Concludes, verify_row-Concludes}

-- A snapshot is of another asset, or was completed at `at` or before.
unfoldable pub is_not_later : ℕ → ℕ → ℕ → ℕ × ScanSnapshotRecord → Bool
is_not_later workspace asset at (job, s) =
    if (s.workspace_id == workspace) && (s.asset_id == asset) then leb s.completed_at at else true

unfoldable pub all_not_later : ℕ → ℕ → ℕ → Table ScanSnapshotRecord → Bool
all_not_later workspace asset at [] = true
all_not_later workspace asset at (entry ∷ rest) =
    is_not_later workspace asset at entry && all_not_later workspace asset at rest

unfoldable pub is_absent : ℕ → ℕ → List ObservationOccurrenceRecord → Bool
is_absent job fingerprint [] = true
is_absent job fingerprint (o ∷ rest) =
    not ((o.job_id == job) && (o.fingerprint == fingerprint)) && is_absent job fingerprint rest

all_not_later_mono :
    (workspace asset a b : ℕ) (snapshots : Table ScanSnapshotRecord)
    → a ≤ b
    → all_not_later workspace asset a snapshots ≡ true
    → all_not_later workspace asset b snapshots ≡ true
unfolding all_not_later is_not_later
all_not_later_mono workspace asset a b [] le h = refl
all_not_later_mono workspace asset a b ((j, s) ∷ rest) le h =
    ground (arith, all_not_later_mono workspace asset a b rest le)

latest_snapshot-none :
    (workspace asset at : ℕ) (snapshots : Table ScanSnapshotRecord)
    → latest_snapshot workspace asset snapshots ≡ none
    → all_not_later workspace asset at snapshots ≡ true
unfolding all_not_later is_not_later latest_snapshot
latest_snapshot-none workspace asset at [] e = refl
latest_snapshot-none workspace asset at ((j, s) ∷ rest) e =
    ground (arith, latest_snapshot-none workspace asset at rest)

latest_snapshot-bound :
    (workspace asset job at : ℕ) (snapshots : Table ScanSnapshotRecord)
    → latest_snapshot workspace asset snapshots ≡ some (job, at)
    → all_not_later workspace asset at snapshots ≡ true
unfolding all_not_later is_not_later latest_snapshot newer
latest_snapshot-bound workspace asset job at [] e = ground arith
latest_snapshot-bound workspace asset job at ((j, s) ∷ rest) e =
    elim (Option-cases (latest_snapshot workspace asset rest)) [
      | inl n ↦ ground (arith, n, latest_snapshot-none workspace asset at rest n)
      | inr ((k, b), f) ↦ ground (
        arith,
        f,
        latest_snapshot-bound workspace asset k b rest f,
        all_not_later_mono workspace asset b at rest,
      )
    ]

find_occurrence-none :
    (job fingerprint : ℕ) (os : List ObservationOccurrenceRecord)
    → is_none (find_occurrence job fingerprint os) ≡ is_absent job fingerprint os
unfolding find_occurrence is_absent
find_occurrence-none job fingerprint [] = refl
find_occurrence-none job fingerprint (o ∷ os) =
    ground (arith, find_occurrence-none job fingerprint os)

-- A conclusion about the item `id`: the item was ready, the job is a successful scan of its asset
-- with a snapshot that none of the asset was completed after, later than the source of the item, and
-- the item is resolved when that scan has no occurrence of its fingerprint, and only then.
pub record Grounded (workspace id job : ℕ) (store : EvidenceStore)
    (items items' : Table MigrationItemRecord) (new : MigrationItemRecord) (resolved : Bool)
    : Type 0 where
  pub row : MigrationItemRecord
  pub scan : ScanJobRecord
  pub snapshot : ScanSnapshotRecord
  pub at : ℕ
  pub found : lookup id items ≡ some row
  pub of_workspace : row.workspace_id ≡ workspace
  pub was_ready : row.status ≡ ready_for_verification
  pub scanned : lookup job store.jobs ≡ some scan
  pub scan_workspace : scan.workspace_id ≡ workspace
  pub scan_asset : scan.asset_id ≡ row.asset_id
  pub scan_status : scan.status ≡ succeeded
  pub retained : lookup job store.snapshots ≡ some snapshot
  pub latest : latest_snapshot workspace row.asset_id store.snapshots ≡ some (job, at)
  pub none_later : all_not_later workspace row.asset_id at store.snapshots ≡ true
  pub newer_than_source :
      is_newer_than snapshot.completed_at (lookup row.source_scan_job_id store.snapshots) ≡ true
  pub absent : resolved ≡ is_absent job row.observation_fingerprint store.occurrences
  pub status : new.status ≡ (if resolved then verified else in_progress)
  pub kept : lookup id items' ≡ some new

is_latest-some :
    (job : ℕ) (o : Option (ℕ × ℕ)) → is_latest job o ≡ true → (at : ℕ) × (o ≡ some (job, at))
unfolding is_latest
is_latest-some job none h = ground arith
is_latest-some job (some (k, at)) h = (at, ground arith)

conclude-status :
    (job : ℕ) (s : ScanSnapshotRecord) (o : Option ObservationOccurrenceRecord) (now : ℕ)
    (row : MigrationItemRecord)
    → (conclude job s o now row).status ≡ (if is_none o then verified else in_progress)
unfolding conclude
conclude-status job s none now row = refl
conclude-status job s (some o) now row = refl

scan_facts :
    (workspace asset : ℕ) (scan : ScanJobRecord)
    → is_successful_scan workspace asset scan ≡ true
    → (scan.workspace_id ≡ workspace) × (scan.asset_id ≡ asset) × (scan.status ≡ succeeded)
unfolding is_successful_scan
scan_facts workspace asset scan h = ground arith

ready_fact : (s : RemediationStatus) → is_ready s ≡ true → s ≡ ready_for_verification
ready_fact s h = ground arith

Grounded-row :
    (workspace id job : ℕ) (store : EvidenceStore) (now : ℕ) (items : Table MigrationItemRecord)
    (row new : MigrationItemRecord) (resolved : Bool)
    → lookup id items ≡ some row
    → row.workspace_id ≡ workspace
    → verify_row workspace job store now row ≡ ok (new, resolved)
    → Grounded workspace id job store items (modify id (λ _. new) items) new resolved
unfolding Concludes
Grounded-row workspace id job store now items row new resolved f w e =
    let (s, same, res) = verify_row-Concludes workspace job store now row (new, resolved) e in
    let (at, l) = is_latest-some job _ s.latest in
    let (sw, sa, ss) = scan_facts workspace row.asset_id s.scan s.successful in
    record {
      row = row;
      scan = s.scan;
      snapshot = s.snapshot;
      at = at;
      found = f;
      of_workspace = w;
      was_ready = ready_fact row.status s.was_ready;
      scanned = s.stored;
      scan_workspace = sw;
      scan_asset = sa;
      scan_status = ss;
      retained = s.retained;
      latest = l;
      none_later = latest_snapshot-bound workspace row.asset_id job at store.snapshots l;
      newer_than_source = s.newer_than_source;
      absent = rw (find_occurrence-none job row.observation_fingerprint store.occurrences) at res;
      status = concluded s same res;
      kept = lookup-modify_self id (λ _. new) items row f;
    }
  where
    concluded :
        (s : Scan workspace job store row)
        → new
          ≡ conclude job s.snapshot
              (find_occurrence job row.observation_fingerprint store.occurrences)
              now
              row
        → resolved ≡ is_none (find_occurrence job row.observation_fingerprint store.occurrences)
        → new.status ≡ (if resolved then verified else in_progress)
    concluded s same res = rw (same, res) (conclude-status job s.snapshot _ now row)

-- When `verify` returns, the item was of the workspace and ready; the job is a successful scan of
-- its asset, has a snapshot newer than that of the source scan if there is one, and is the latest
-- of the asset, none being completed later; the result is true when the scan has no occurrence of
-- the fingerprint, and only then; and the stored item is verified if it is true, and in progress
-- if not.
pub verify-Grounded :
    (workspace id job : ℕ) (store : EvidenceStore) (now : ℕ)
    (items items' : Table MigrationItemRecord) (new : MigrationItemRecord) (resolved : Bool)
    → verify workspace id job store now items ≡ ok (items', new, resolved)
    → Grounded workspace id job store items items' new resolved
unfolding verify
verify-Grounded workspace id job store now items items' new resolved e =
    elim (Option-cases (lookup id items)) [
      | inl n ↦ ground (arith, n)
      | inr (row, f) ↦ elim (Bool-cases (row.workspace_id == workspace)) [
        | inr w ↦ ground (arith, f, w)
        | inl w ↦ elim (Result-cases (verify_row workspace job store now row)) [
          | inr (x, r) ↦ ground (arith, f, w, r)
          | inl ((row', done), r) ↦
              let table : modify id (λ _. row') items ≡ items' = ground (arith, f, w, r) in
              let item : row' ≡ new = ground (arith, f, w, r) in
              let res : done ≡ resolved = ground (arith, f, w, r) in
              rw (← table, ← item, ← res)
                (Grounded-row workspace id job store now items row row' done f (ground (arith, w))
                  r)
        ]
      ]
    ]
