-- ===== src/Remediation/Evidence.antt =====
-- The evidence behind a verification (src/cryptohawk/storage/remediation.py, `verify`).
use crypto_hawk.Prelude.{
  ℕ, Bool, true, some, ok, arith, lookup, is_none, Bool-cases, Option-cases, inl, inr, ◌≡◌,
}
use crypto_hawk.Store.{ScanJobRecord}
use crypto_hawk.Continuous.Records.{ScanSnapshotRecord}
use crypto_hawk.Remediation.Items.{MigrationItemRecord}
use crypto_hawk.Remediation.Verify.{
  EvidenceStore, verify_row, conclude, find_occurrence, is_latest, latest_snapshot, is_newer_than,
  is_successful_scan, is_ready,
}

-- The scan that a conclusion about an item rests on.
pub record Scan (workspace job : ℕ) (store : EvidenceStore) (row : MigrationItemRecord)
    : Type 0 where
  pub scan : ScanJobRecord
  pub snapshot : ScanSnapshotRecord
  pub was_ready : is_ready row.status ≡ true
  pub stored : lookup job store.jobs ≡ some scan
  pub successful : is_successful_scan workspace row.asset_id scan ≡ true
  pub retained : lookup job store.snapshots ≡ some snapshot
  pub latest : is_latest job (latest_snapshot workspace row.asset_id store.snapshots) ≡ true
  pub newer_than_source :
      is_newer_than snapshot.completed_at (lookup row.source_scan_job_id store.snapshots) ≡ true

unfoldable pub Concludes :
    ℕ → ℕ → EvidenceStore → ℕ → MigrationItemRecord → MigrationItemRecord × Bool → Type 0
Concludes workspace job store now row (new, resolved) =
    (s : Scan workspace job store row) × (new
      ≡ conclude job s.snapshot (find_occurrence job row.observation_fingerprint store.occurrences)
          now row)
    × (resolved ≡ is_none (find_occurrence job row.observation_fingerprint store.occurrences))

pub verify_row-Concludes :
    (workspace job : ℕ) (store : EvidenceStore) (now : ℕ) (row : MigrationItemRecord)
    (out : MigrationItemRecord × Bool)
    → verify_row workspace job store now row ≡ ok out
    → Concludes workspace job store now row out
unfolding verify_row Concludes
verify_row-Concludes workspace job store now row out e = elim (Bool-cases (is_ready row.status)) [
  | inr r ↦ ground (arith, r)
  | inl r ↦ elim (Option-cases (lookup job store.jobs)) [
    | inl j ↦ ground (arith, r, j)
    | inr (scan, j) ↦ elim (Bool-cases (is_successful_scan workspace row.asset_id scan)) [
      | inr s ↦ ground (arith, r, j, s)
      | inl s ↦ elim (Option-cases (lookup job store.snapshots)) [
        | inl k ↦ ground (arith, r, j, s, k)
        | inr (snapshot, k) ↦
            elim (Bool-cases
              (is_latest job (latest_snapshot workspace row.asset_id store.snapshots))) [
                | inr l ↦ ground (arith, r, j, s, k, l)
                | inl l ↦
                    elim (Bool-cases (
                      is_newer_than snapshot.completed_at
                        (lookup row.source_scan_job_id store.snapshots))) [
                          | inr n ↦ ground (arith, r, j, s, k, l, n)
                          | inl n ↦ (
                            record {
                              scan = scan;
                              snapshot = snapshot;
                              was_ready = r;
                              stored = j;
                              successful = s;
                              retained = k;
                              latest = l;
                              newer_than_source = n;
                            },
                            ground (arith, r, j, s, k, l, n),
                            ground (arith, r, j, s, k, l, n),
                          )
                        ]
              ]
      ]
    ]
  ]
]
