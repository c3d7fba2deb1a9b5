-- ===== src/Queue/Ownership.antt =====
-- The lease of a job, and who may end the job
-- (src/cryptohawk/storage/queue.py).
use crypto_hawk.Prelude.{
  ℕ, ◌≡◌, refl, Bool, false, none, some, err, runtime_error, arith, lookup, lookup-modify_self,
  Text, Option-cases, inl, inr, Bool-cases, ◌&&◌,
}
use crypto_hawk.Store.{Db, ScanJobRecord, ScanQueueRecord, owned_by, is_running}
use crypto_hawk.Queue.Leases.{
  settle, give_back, finish, complete, acknowledge_cancel, fail, recover, recovered_row,
  recovered_job, without_lease, finished, is_terminal, has_expired,
}

-- What a worker without the lease gets from each operation: an error, and the tables as they were.
pub record IsRefused (quota : Bool) (id : ℕ) (worker : Text) (db : Db) : Type 0 where
  pub completes :
      (findings now : ℕ) → complete quota id worker findings now db ≡ (db, err runtime_error)
  pub acknowledges : (now : ℕ) → acknowledge_cancel quota id worker now db ≡ (db, err runtime_error)
  pub fails :
      (message : Text) (retryable : Bool) (backoff now : ℕ)
      → fail quota id worker message retryable backoff now db ≡ (db, err runtime_error)

module _ (quota : Bool) (id : ℕ) (worker : Text) (db : Db) (job : ScanJobRecord)
    (q : ScanQueueRecord) (at : lookup id db.jobs ≡ some job) (row : lookup id db.queue ≡ some q)
    (other : owned_by worker q.lease_owner ≡ false) where
  settle_refused :
      (f : ScanJobRecord → ScanJobRecord) (g : ScanQueueRecord → ScanQueueRecord)
      → settle id worker f g db ≡ (db, err runtime_error)
  unfolding settle
  settle_refused f g = rw (at, row, settle) (ground arith)

  not_owner-IsRefused : IsRefused quota id worker db
  unfolding complete acknowledge_cancel finish fail is_terminal give_back
  not_owner-IsRefused = record {
    completes =
        λ findings now. rw (settle_refused (finished _ findings none now) without_lease) refl;
    acknowledges = λ now. rw (settle_refused (finished _ 0 none now) without_lease) refl;
    fails = λ message retryable backoff now. rw (row, fail) (rw other);
  }

-- A job that is there, with a row of the queue that no worker holds.
pub record IsFree (id : ℕ) (db : Db) : Type 0 where
  pub job : ScanJobRecord
  pub row : ScanQueueRecord
  pub job_at : lookup id db.jobs ≡ some job
  pub row_at : lookup id db.queue ≡ some row
  pub free : row.lease_owner ≡ none

recovered_row-free : (now : ℕ) (q : ScanQueueRecord) → (recovered_row now q).lease_owner ≡ none
unfolding recovered_row without_lease
recovered_row-free now q = ground arith

recover-IsFree :
    (now id : ℕ) (db : Db) (workspace : ℕ) (again : Bool)
    → (recover now id db).1 ≡ some (workspace, again)
    → IsFree id (recover now id db).0
unfolding recover
recover-IsFree now id db workspace again = elim (Option-cases (lookup id db.queue)) [
  | inl e ↦ rw (e, recover) (λ found. cc)
  | inr (q, e) ↦ elim (Option-cases (lookup id db.jobs)) [
    | inl e' ↦ rw (e, e', recover) (λ found. cc)
    | inr (job, e') ↦
        elim (Bool-cases (is_running job.status && has_expired now q.lease_expires_at)) [
          | inl due ↦
              rw (e, e', due, recover)
                (λ found. record {
                  job = recovered_job now q job;
                  row = recovered_row now q;
                  job_at = lookup-modify_self id (recovered_job now q) db.jobs job e';
                  row_at = lookup-modify_self id (recovered_row now) db.queue q e;
                  free = recovered_row-free now q;
                })
          | inr kept ↦ rw (e, e', kept, recover) (λ found. cc)
        ]
  ]
]

-- In the tables after recovery has taken a job from its worker, no worker can complete the job,
-- fail it or acknowledge its cancellation: each attempt raises a runtime error and changes
-- nothing.
pub recover-IsRefused :
    (quota : Bool) (id now : ℕ) (worker : Text) (db : Db) (workspace : ℕ) (again : Bool)
    → (recover now id db).1 ≡ some (workspace, again)
    → IsRefused quota id worker (recover now id db).0
recover-IsRefused quota id now worker db workspace again found =
    let f = recover-IsFree now id db workspace again found in
    not_owner-IsRefused quota id worker (recover now id db).0 f.job f.row f.job_at f.row_at
      (rw f.free (unfold owned_by in refl))
