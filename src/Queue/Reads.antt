-- ===== src/Queue/Reads.antt =====
-- The transactions of src/cryptohawk/storage/queue.py that read rows first and write them afterwards
-- by their keys, without a lock: `recover_expired_leases` and `request_cancel`, with the tables that
-- they read apart from the tables that they write.
use crypto_hawk.Prelude.{
  ℕ, ◌≡◌, refl, Bool, true, ◌&&◌, ◌||◌, Option, none, some, [], ◌∷◌, Table, lookup, modify, leb,
  if◌then◌else◌, arith, Option-cases, inl, inr, ◌∙◌,
}
use crypto_hawk.Store.{Db, ScanQueueRecord, is_running, is_queued}
use crypto_hawk.Queue.Leases.{
  recover, recovered_row, recovered_job, recovered_status, has_expired, without_lease,
  request_cancel, cancel_rows, canceled_row, flagged_row, canceled_job, is_terminal, get_job,
}

-- The write to a row of the queue that was read as `q`.
unfoldable pub recover_row : ℕ → ScanQueueRecord → ScanQueueRecord → ScanQueueRecord
recover_row now q row =
    if q.cancel_requested || leb q.max_attempts q.attempts
    then without_lease row
    else record (without_lease row) { next_attempt_at = now }

-- One round of the loop of `recover_expired_leases`: the rows are those of `seen`, the tables at the
-- `SELECT`, and the `UPDATE`s by the key of the job meet the tables `db`.
unfoldable pub recover_read : ℕ → ℕ → Db → Db → Db × Option (ℕ × Bool)
recover_read now id seen db = elim (lookup id seen.queue) [
  | none ↦ (db, none)
  | some q ↦ elim (lookup id seen.jobs) [
    | none ↦ (db, none)
    | some job ↦
        if is_running job.status && has_expired now q.lease_expires_at
        then (
          record db {
            queue = modify id (recover_row now q) db.queue;
            jobs = modify id (recovered_job now q) db.jobs;
          },
          some (job.workspace_id, is_queued (recovered_status q)),
        )
        else (db, none)
  ]
]

-- An attribute that is set to `None` is written when it was read as something else.
abbrev pub cleared {ℓ} : {A : Type ℓ} → Option A → Option A → Option A
cleared none current = current
cleared (some a) current = none

-- The write of a cancellation to a row of the queue that was read as `q`.
unfoldable pub cancel_row : ScanQueueRecord → ScanQueueRecord → ScanQueueRecord
cancel_row q row = record row {
  cancel_requested = true;
  lease_owner = cleared q.lease_owner row.lease_owner;
  lease_expires_at = cleared q.lease_expires_at row.lease_expires_at;
}

-- The tables after `request_cancel`, when its two `SELECT`s met `seen` and its `UPDATE`s `db`.
unfoldable pub cancel_read : ℕ → ℕ → Db → Db → Db
cancel_read id now seen db = elim (lookup id seen.jobs) [
  | none ↦ db
  | some job ↦ elim (lookup id seen.queue) [
    | none ↦ db
    | some q ↦
        if is_terminal job.status
        then db
        else if is_queued job.status
        then record db {
          queue = modify id (cancel_row q) db.queue;
          jobs = modify id (canceled_job now) db.jobs;
        }
        else record db { queue = modify id flagged_row db.queue }
  ]
]

-- The rows of a job are still as they were read.
pub record IsStillRead (id : ℕ) (seen db : Db) : Type 0 where
  pub job_read : lookup id seen.jobs ≡ lookup id db.jobs
  pub row_read : lookup id seen.queue ≡ lookup id db.queue

modify_at {ℓ} :
    {V : Type ℓ} (k : ℕ) (f g : V → V) (d : Table V) (v : V)
    → lookup k d ≡ some v
    → f v ≡ g v
    → modify k f d ≡ modify k g d
unfolding lookup modify
modify_at k f g [] v h e = refl
modify_at k f g ((j, w) ∷ d) v h e = ground (arith, modify_at k f g d v)

recover_row_same : (now : ℕ) (q : ScanQueueRecord) → recover_row now q q ≡ recovered_row now q
unfolding recover_row recovered_row
recover_row_same now q = refl

cancel_row_same : (q : ScanQueueRecord) → cancel_row q q ≡ canceled_row q
unfolding cancel_row canceled_row
cancel_row_same q = elim (Option-cases q.lease_owner) [
  | inl e ↦ elim (Option-cases q.lease_expires_at) [
    | inl e' ↦ rw (e, e') refl
    | inr (x, e') ↦ rw (e, e') refl
  ]
  | inr (y, e) ↦ elim (Option-cases q.lease_expires_at) [
    | inl e' ↦ rw (e, e') refl
    | inr (x, e') ↦ rw (e, e') refl
  ]
]

-- Rows that are still as they were read are recovered as in one step.
pub recover_read-recover :
    (now id : ℕ) (seen db : Db)
    → IsStillRead id seen db
    → recover_read now id seen db ≡ recover now id db
unfolding recover_read recover
recover_read-recover now id seen db h = elim (Option-cases (lookup id db.queue)) [
  | inl e ↦ rw (h.row_read ∙ e, e, recover_read, recover) refl
  | inr (q, e) ↦ elim (Option-cases (lookup id db.jobs)) [
    | inl e' ↦ rw (h.row_read ∙ e, e, h.job_read ∙ e', e', recover_read, recover) refl
    | inr (job, e') ↦
        let same =
          modify_at id (recover_row now q) (recovered_row now) db.queue q e
            (recover_row_same now q) in
        rw (h.row_read ∙ e, e, h.job_read ∙ e', e', same, recover_read, recover) refl
  ]
]

-- And canceled as in one step.
pub cancel_read-cancel :
    (id now : ℕ) (seen db : Db)
    → IsStillRead id seen db
    → cancel_read id now seen db ≡ (request_cancel id now db).0
unfolding cancel_read request_cancel cancel_rows get_job
cancel_read-cancel id now seen db h = elim (Option-cases (lookup id db.jobs)) [
  | inl e ↦ rw (h.job_read ∙ e, e, cancel_read, request_cancel) refl
  | inr (job, e) ↦ elim (Option-cases (lookup id db.queue)) [
    | inl e' ↦ rw (h.job_read ∙ e, e, h.row_read ∙ e', e', cancel_read, request_cancel) refl
    | inr (q, e') ↦
        let same = modify_at id (cancel_row q) canceled_row db.queue q e' (cancel_row_same q) in
        rw (h.job_read ∙ e, e, h.row_read ∙ e', e', same, cancel_read, request_cancel)
          (ground arith)
  ]
]
