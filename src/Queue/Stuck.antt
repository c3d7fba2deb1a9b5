-- ===== src/Queue/Stuck.antt =====
-- A cancellation that meets a failure which may be retried (`request_cancel` and `fail` of
-- src/cryptohawk/storage/queue.py).
use crypto_hawk.Prelude.{
  ℕ, ◌+◌, ◌<◌, ◌≡◌, refl, Bool, true, false, none, some, Result, ok, err, arith, lookup,
  lookup-modify_self, Text, ap, ◌∙◌, modify, lt→ltb,
}
use crypto_hawk.Store.{Db, ScanJobRecord, ScanQueueRecord, owned_by, is_running, seconds}
use crypto_hawk.Quotas.Capacity.{SameJobs, release-SameJobs}
use crypto_hawk.Queue.Claims.{claim, is_claimable, release_capacity}
use crypto_hawk.Queue.Leases.{
  settle, give_back, fail, recover, without_lease, requeued, retried, get_job,
}

pub give_back-SameJobs :
    (quota : Bool) (id now : ℕ) (db : Db) (r : Result ℕ)
    → SameJobs db (give_back quota id now (db, r)).0
unfolding give_back release_capacity get_job
give_back-SameJobs quota id now db (err e) = ground arith
give_back-SameJobs true id now db (ok w) = ground (arith, release-SameJobs w now db)
give_back-SameJobs false id now db (ok w) = ground arith

claim_flagged :
    (id : ℕ) (worker : Text) (expires now : ℕ) (db : Db) (q : ScanQueueRecord)
    → lookup id db.queue ≡ some q
    → q.cancel_requested ≡ true
    → claim id worker expires now db ≡ (db, false)
unfolding claim is_claimable
claim_flagged id worker expires now db q row flagged = rw (row, claim) (ground arith)

recover_queued :
    (now id : ℕ) (db : Db) (job : ScanJobRecord)
    → lookup id db.jobs ≡ some job
    → is_running job.status ≡ false
    → recover now id db ≡ (db, none)
unfolding recover
recover_queued now id db job at waits = ground arith

-- The tables after the transaction of a retry.
abbrev after_retry : ℕ → ℕ → Db → Db
after_retry id due db = record db {
  jobs = modify id requeued db.jobs;
  queue = modify id (retried due) db.queue;
}

fail-retry :
    (quota : Bool) (id : ℕ) (worker message : Text) (backoff now : ℕ) (db : Db)
    (job : ScanJobRecord) (q : ScanQueueRecord)
    → lookup id db.jobs ≡ some job
    → lookup id db.queue ≡ some q
    → is_running job.status ≡ true
    → owned_by worker q.lease_owner ≡ true
    → q.attempts < q.max_attempts
    → fail quota id worker message true backoff now db
      ≡ give_back quota id now (after_retry id (now + seconds backoff) db, ok job.workspace_id)
unfolding fail settle
fail-retry quota id worker message backoff now db job q at row runs owns left =
    rw (row, fail) (rw (owns, lt→ltb _ _ left) (rw (at, row, settle) (rw (runs, owns))))

-- A running job that is to be canceled and has attempts left, and whose worker reports a failure
-- that may be retried, is queued afterwards; in those tables no claim takes it, whenever it is
-- made, and no recovery changes anything about it.
pub fail-cancel_requested :
    (quota : Bool) (id : ℕ) (worker message : Text) (backoff now : ℕ) (db : Db)
    (job : ScanJobRecord) (q : ScanQueueRecord)
    → lookup id db.jobs ≡ some job
    → lookup id db.queue ≡ some q
    → is_running job.status ≡ true
    → owned_by worker q.lease_owner ≡ true
    → q.cancel_requested ≡ true
    → q.attempts < q.max_attempts
    → let after = (fail quota id worker message true backoff now db).0 in
      (lookup id after.jobs ≡ some (requeued job))
      × ((other : Text) (expires later : ℕ) → claim id other expires later after ≡ (after, false))
      × ((later : ℕ) → recover later id after ≡ (after, none))
fail-cancel_requested quota id worker message backoff now db job q at row runs owns flagged left =
    rw (fail-retry quota id worker message backoff now db job q at row runs owns left) (
      let job_at = ap (lookup id) same.jobs ∙ lookup-modify_self id requeued db.jobs job at in
      let row_at = ap (lookup id) same.queue ∙ lookup-modify_self id (retried due) db.queue q row in
      (
        job_at,
        λ other expires later.
            claim_flagged id other expires later _ (retried due q) row_at
              (unfold retried without_lease in flagged),
        λ later. recover_queued later id _ (requeued job) job_at (unfold requeued in refl),
      ))
  where
    due : ℕ
    due = now + seconds backoff

    settled : Db
    settled = after_retry id due db

    same : SameJobs settled (give_back quota id now (settled, ok job.workspace_id)).0
    same = give_back-SameJobs quota id now settled (ok job.workspace_id)
