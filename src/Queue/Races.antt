-- ===== src/Queue/Races.antt =====
-- What the reads and writes of src/cryptohawk/storage/queue.py do when another transaction is
-- committed between them.
use crypto_hawk.Prelude.{
  ℕ, ◌<◌, ◌≡◌, refl, Bool, true, false, none, some, ok, arith, lookup, modify, lookup-modify_self,
  Text, ap, ◌∙◌, Result,
}
use crypto_hawk.Store.{Db, ScanJobRecord, ScanQueueRecord, owned_by, is_running, succeeded, queued}
use crypto_hawk.Queue.Leases.{
  settle, give_back, finish, complete, finished, without_lease, has_expired, recovered_status,
  recovered_job, is_terminal,
}
use crypto_hawk.Queue.Reads.{recover_read}
use crypto_hawk.Queue.Stuck.{give_back-SameJobs}

-- The tables after the transaction that completes a job.
abbrev completed : ℕ → ℕ → ℕ → Db → Db
completed id findings now db = record db {
  jobs = modify id (finished succeeded findings none now) db.jobs;
  queue = modify id without_lease db.queue;
}

complete-owned :
    (quota : Bool) (id : ℕ) (worker : Text) (findings now : ℕ) (db : Db) (job : ScanJobRecord)
    (q : ScanQueueRecord)
    → lookup id db.jobs ≡ some job
    → lookup id db.queue ≡ some q
    → is_running job.status ≡ true
    → owned_by worker q.lease_owner ≡ true
    → complete quota id worker findings now db
      ≡ give_back quota id now (completed id findings now db, ok job.workspace_id)
unfolding complete finish is_terminal settle
complete-owned quota id worker findings now db job q at row runs owns =
    rw (at, row, settle) (rw (runs, owns) refl)

recover_read-expired :
    (later id : ℕ) (seen db : Db) (job done : ScanJobRecord) (q : ScanQueueRecord)
    → lookup id seen.jobs ≡ some job
    → lookup id seen.queue ≡ some q
    → is_running job.status ≡ true
    → has_expired later q.lease_expires_at ≡ true
    → q.cancel_requested ≡ false
    → q.attempts < q.max_attempts
    → lookup id db.jobs ≡ some done
    → ((recover_read later id seen db).1 ≡ some (job.workspace_id, true))
      × (lookup id (recover_read later id seen db).0.jobs ≡ some (record done { status = queued }))
unfolding recover_read recovered_status recovered_job
recover_read-expired later id seen db job done q at row runs late wanted left there =
    rw (row, at, recover_read)
      (ground (arith, lookup-modify_self id (recovered_job later q) db.jobs done there))

-- When a recovery reads the row of a running job whose lease has expired, with attempts left and no
-- request for cancellation, and the job's worker completes it before the recovery writes, then the
-- job is stored as succeeded between the two, and the write makes it queued again and counts its
-- workspace once more among those whose slot is to be released.
pub complete-recover :
    (quota : Bool) (id : ℕ) (worker : Text) (findings now later : ℕ) (db : Db) (job : ScanJobRecord)
    (q : ScanQueueRecord)
    → lookup id db.jobs ≡ some job
    → lookup id db.queue ≡ some q
    → is_running job.status ≡ true
    → owned_by worker q.lease_owner ≡ true
    → has_expired later q.lease_expires_at ≡ true
    → q.cancel_requested ≡ false
    → q.attempts < q.max_attempts
    → let done = (complete quota id worker findings now db).0 in
      let (after, released) = recover_read later id db done in
      (lookup id done.jobs ≡ some (finished succeeded findings none now job))
      × (released ≡ some (job.workspace_id, true))
      × (lookup id after.jobs
          ≡ some (record (finished succeeded findings none now job) { status = queued }))
complete-recover quota id worker findings now later db job q at row runs owns late wanted left =
    let whole =
      ap (λ (r : Db × Result ScanJobRecord). r.0)
        (complete-owned quota id worker findings now db job q at row runs owns) in
    let same =
      give_back-SameJobs quota id now (completed id findings now db) (ok job.workspace_id) in
    let stored =
      ap (λ (d : Db). lookup id d.jobs) whole
      ∙ ap (lookup id) same.jobs
      ∙ lookup-modify_self id (finished succeeded findings none now) db.jobs job at in
    let (released, again) =
      recover_read-expired later id db _ job _ q at row runs late wanted left stored in
    (stored, released, again)
