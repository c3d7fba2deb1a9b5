-- ===== src/Queue/Enqueue.antt =====
-- `enqueue` of src/cryptohawk/storage/queue.py, and `create_scan_job` and `transition_scan_job` of
-- src/cryptohawk/storage/inventory.py.
use crypto_hawk.Prelude.{
  ℕ, Bool, true, false, ◌&&◌, Option, none, some, Result, ok, err, value_error, lookup_error,
  runtime_error, Text, lookup, insert, modify, take, leb, ◌==◌, if◌then◌else◌,
}
use crypto_hawk.Store.{
  Db, ScanJobRecord, ScanKind, source, repository, tls, certificate, ssh, container, ScanStatus,
  queued, running, succeeded, failed, canceled, ScanQueueRecord,
}
use crypto_hawk.Queue.Leases.{is_terminal, get_job}

-- `get_asset` is not `None`
unfoldable pub has_asset : ℕ → ℕ → Db → Bool
has_asset workspace asset db = elim (lookup asset db.assets) [
  | none ↦ false
  | some row ↦ row.workspace_id == workspace
]

abbrev pub kind_order : ScanKind → ℕ
kind_order source = 0
kind_order repository = 1
kind_order tls = 2
kind_order certificate = 3
kind_order ssh = 4
kind_order container = 5

-- What a new job asks for.
pub record Work : Type 0 where
  pub workspace_id : ℕ
  pub asset_id : ℕ
  pub kind : ScanKind

unfoldable pub is_same_work : Work → ScanJobRecord → Bool
is_same_work w job =
    (job.workspace_id == w.workspace_id)
    && ((job.asset_id == w.asset_id) && (kind_order job.kind == kind_order w.kind))

unfoldable pub new_job : Work → ℕ → ScanJobRecord
new_job w now = record {
  workspace_id = w.workspace_id;
  asset_id = w.asset_id;
  kind = w.kind;
  status = queued;
  requested_at = now;
  started_at = none;
  finished_at = none;
  findings_count = 0;
  error_message = none;
}

-- `create_scan_job`: `id` is the given job id, or the fresh one of `ScanJob`.
unfoldable pub create_scan_job : ℕ → Work → ℕ → Db → Db × Result ScanJobRecord
create_scan_job id w now db =
    if has_asset w.workspace_id w.asset_id db
    then elim (lookup id db.jobs) [
      | some job ↦ (db, if is_same_work w job then ok job else err value_error)
      | none ↦ (record db { jobs = insert id (new_job w now) db.jobs }, ok (new_job w now))
    ]
    else (db, err lookup_error)

unfoldable pub new_row : ℕ → ℕ → ScanQueueRecord
new_row max_attempts now = record {
  attempts = 0;
  max_attempts = max_attempts;
  lease_owner = none;
  lease_expires_at = none;
  last_heartbeat_at = none;
  next_attempt_at = now;
  cancel_requested = false;
}

-- The row of the queue for a job that there is.
unfoldable pub add_row : ℕ → ℕ → ℕ → ScanJobRecord → Db → Db × Result ScanJobRecord
add_row id max_attempts now job db = elim (lookup id db.queue) [
  | some q ↦ (db, if q.max_attempts == max_attempts then ok job else err value_error)
  | none ↦ (record db { queue = insert id (new_row max_attempts now) db.queue }, ok job)
]

-- The second half of `enqueue`, when the job is there or could not be created.
unfoldable pub enqueue_created : ℕ → ℕ → ℕ → Db × Result ScanJobRecord → Db × Result ScanJobRecord
enqueue_created id max_attempts now (db, err e) = (db, err e)
enqueue_created id max_attempts now (db, ok job) = add_row id max_attempts now job db

unfoldable pub enqueue : ℕ → Work → ℕ → ℕ → Db → Db × Result ScanJobRecord
enqueue id w max_attempts now db =
    if leb 1 max_attempts && leb max_attempts 20
    then enqueue_created id max_attempts now (create_scan_job id w now db)
    else (db, err value_error)

-- `_ALLOWED_TRANSITIONS`
unfoldable pub is_allowed : ScanStatus → ScanStatus → Bool
is_allowed queued running = true
is_allowed queued canceled = true
is_allowed running succeeded = true
is_allowed running failed = true
is_allowed running canceled = true
is_allowed _ _ = false

abbrev pub status_order : ScanStatus → ℕ
status_order queued = 0
status_order running = 1
status_order succeeded = 2
status_order failed = 3
status_order canceled = 4

abbrev pub or_else {ℓ} : {A : Type ℓ} → Option A → A → A
or_else none a = a
or_else (some b) a = b

abbrev pub is_run : ScanStatus → Bool
is_run running = true
is_run _ = false

-- The columns that a transition sets.
unfoldable pub moved : ScanStatus → Option ℕ → Option Text → ℕ → ScanJobRecord → ScanJobRecord
moved target findings message now job = record job {
  status = target;
  started_at = if is_run target then some now else job.started_at;
  finished_at = if is_terminal target then some now else job.finished_at;
  findings_count = or_else findings job.findings_count;
  error_message = elim message [ none ↦ job.error_message | some m ↦ some (take 4000 m) ];
}

unfoldable pub transition_scan_job :
    ℕ → ℕ → ScanStatus → ScanStatus → Option ℕ → Option Text → ℕ → Db → Db × Result ScanJobRecord
transition_scan_job workspace id expected target findings message now db =
    if is_allowed expected target
    then elim (lookup id db.jobs) [
      | none ↦ (db, err runtime_error)
      | some job ↦
          if (job.workspace_id == workspace) && (status_order job.status == status_order expected)
          then get_job id
              (record db { jobs = modify id (moved target findings message now) db.jobs })
          else (db, err runtime_error)
    ]
    else (db, err value_error)
