-- ===== src/Retention/Tables.antt =====
-- The tables that src/cryptohawk/storage/retention.py reads and deletes from. Of an audit event, a
-- repository run, a finding and its scope the columns that it reads are kept.
use crypto_hawk.Prelude.{ℕ, Bool, false, ◌||◌, Option, List, [], ◌∷◌, Text, Table, if◌then◌else◌}
use crypto_hawk.Store.{ScanJobRecord, ScanQueueRecord}
use crypto_hawk.Continuous.Records.{
  ScanSnapshotRecord, ScheduledExecutionRecord, ObservationStateRecord, ObservationOccurrenceRecord,
  DriftEvent,
}
use crypto_hawk.Remediation.{MigrationItemRecord}

pub record WorkspaceRetentionPolicyRecord : Type 0 where
  pub enabled : Bool
  pub evidence_retention_days : ℕ
  pub audit_retention_days : ℕ
  pub sweep_interval_hours : ℕ
  pub last_run_at : Option ℕ
  pub updated_by : Option Text
  pub updated_at : ℕ

pub record RepositoryScanRunRecord : Type 0 where
  pub workspace_id : ℕ
  pub asset_id : ℕ
  pub collected_at : ℕ

pub record FindingRecord : Type 0 where
  pub discovered_at : ℕ

pub record FindingScopeRecord : Type 0 where
  pub workspace_id : ℕ
  pub scan_job_id : ℕ

pub record AuditEventRecord : Type 0 where
  pub workspace_id : Option ℕ
  pub created_at : ℕ

pub record History : Type 0 where
  pub policies : Table WorkspaceRetentionPolicyRecord
  pub states : List ObservationStateRecord
  pub occurrences : List ObservationOccurrenceRecord
  pub events : List DriftEvent
  pub snapshots : Table ScanSnapshotRecord
  pub executions : Table ScheduledExecutionRecord
  pub runs : Table RepositoryScanRunRecord
  pub scopes : Table FindingScopeRecord
  pub findings : Table FindingRecord
  pub jobs : Table ScanJobRecord
  pub queue : Table ScanQueueRecord
  pub items : Table MigrationItemRecord
  pub audit : List AuditEventRecord

-- `DELETE ... WHERE criteria`, of rows that have a key and of rows that have none.
module _ {ℓ} {V : Type ℓ} where
  unfoldable pub remove : (ℕ → V → Bool) → Table V → Table V
  remove criteria [] = []
  remove criteria ((id, row) ∷ rows) =
      let rest = remove criteria rows in if criteria id row then rest else (id, row) ∷ rest

  unfoldable pub remove_rows : (V → Bool) → List V → List V
  remove_rows criteria [] = []
  remove_rows criteria (row ∷ rows) =
      let rest = remove_rows criteria rows in if criteria row then rest else row ∷ rest

  -- `SELECT id ... WHERE criteria`
  unfoldable pub ids_where : (ℕ → V → Bool) → Table V → List ℕ
  ids_where criteria [] = []
  ids_where criteria ((id, row) ∷ rows) =
      let rest = ids_where criteria rows in if criteria id row then id ∷ rest else rest

  -- `exists().where(...)`
  unfoldable pub any_row : (ℕ → V → Bool) → Table V → Bool
  any_row criteria [] = false
  any_row criteria ((id, row) ∷ rows) = criteria id row || any_row criteria rows

  unfoldable pub any_of : (V → Bool) → List V → Bool
  any_of criteria [] = false
  any_of criteria (row ∷ rows) = criteria row || any_of criteria rows
