-- ===== src/Queue/Leases.antt =====
-- The operations of a worker on its lease, cancellation and the recovery of expired leases
-- (src/cryptohawk/storage/queue.py).
use crypto_hawk.Prelude.{
  ℕ, ◌+◌, Bool, true, false, not, ◌&&◌, ◌||◌, Option, none, some, List, [], ◌∷◌, Result, ok, err,
  value_error, runtime_error, lookup_error, Text, Table, lookup, modify, take, leb, ltb, codes,
  if◌then◌else◌,
}
use crypto_hawk.Store.{
  Db, ScanJobRecord, ScanStatus, queued, running, succeeded, failed, canceled, ScanQueueRecord,
  seconds, is_queued, is_running, owned_by,
}
use crypto_hawk.Queue.Claims.{ScanLease, lease_from_job_id, release_capacity}

unfoldable pub beaten : ℕ → ℕ → ScanQueueRecord → ScanQueueRecord
beaten expires now q = record q { lease_expires_at = some expires; last_heartbeat_at = some now }

-- The update of a heartbeat, and the lease that it returns.
unfoldable pub beat : ℕ → Text → ℕ → ℕ → Db → Db × Result ScanLease
beat id worker expires now db =
    let db' : Db = record db { queue = modify id (beaten expires now) db.queue } in
    (db', lease_from_job_id id worker db')

unfoldable pub heartbeat : ℕ → Text → ℕ → ℕ → Db → Db × Result ScanLease
heartbeat id worker lease_seconds now db =
    if leb 5 lease_seconds && leb lease_seconds 3600
    then elim (lookup id db.queue) [
      | none ↦ (db, err runtime_error)
      | some q ↦
          if owned_by worker q.lease_owner && not q.cancel_requested
          then beat id worker (now + seconds lease_seconds) now db
          else (db, err runtime_error)
    ]
    else (db, err value_error)

-- `error_message[:4000] if error_message else None`
unfoldable pub truncated : Option Text → Option Text
truncated none = none
truncated (some []) = none
truncated (some (c ∷ s)) = some (take 4000 (c ∷ s))

unfoldable pub without_lease : ScanQueueRecord → ScanQueueRecord
without_lease q = record q { lease_owner = none; lease_expires_at = none; last_heartbeat_at = none }

unfoldable pub finished : ScanStatus → ℕ → Option Text → ℕ → ScanJobRecord → ScanJobRecord
finished status findings message now job = record job {
  status = status;
  finished_at = some now;
  findings_count = findings;
  error_message = truncated message;
}

-- A transaction on a running job and its lease: both updates, or none of them. It returns the
-- workspace whose slot is to be given back.
unfoldable pub settle :
    ℕ
    → Text
    → (ScanJobRecord → ScanJobRecord)
    → (ScanQueueRecord → ScanQueueRecord)
    → Db
    → Db × Result ℕ
settle id worker change_job change_queue db = elim (lookup id db.jobs) [
  | none ↦ (db, err lookup_error)
  | some job ↦ elim (lookup id db.queue) [
    | none ↦ (db, err runtime_error)
    | some q ↦
        if is_running job.status && owned_by worker q.lease_owner
        then (
          record db {
            jobs = modify id change_job db.jobs;
            queue = modify id change_queue db.queue;
          },
          ok job.workspace_id,
        )
        else (db, err runtime_error)
  ]
]

unfoldable pub get_job : ℕ → Db → Db × Result ScanJobRecord
get_job id db = (db, elim (lookup id db.jobs) [ none ↦ err runtime_error | some job ↦ ok job ])

-- What follows a transaction that settles a job: the slot goes back, and the job is read again.
unfoldable pub give_back : Bool → ℕ → ℕ → Db × Result ℕ → Db × Result ScanJobRecord
give_back quota id now (db, err e) = (db, err e)
give_back quota id now (db, ok workspace) =
    let (released, outcome) = release_capacity quota workspace now db in
    elim outcome [ err e ↦ (released, err e) | ok u ↦ get_job id released ]

unfoldable pub is_terminal : ScanStatus → Bool
is_terminal succeeded = true
is_terminal failed = true
is_terminal canceled = true
is_terminal queued = false
is_terminal running = false

unfoldable pub requeued : ScanJobRecord → ScanJobRecord
requeued job = record job { status = queued }

unfoldable pub retried : ℕ → ScanQueueRecord → ScanQueueRecord
retried next q = record (without_lease q) { next_attempt_at = next }

module _ (quota : Bool) (id : ℕ) (worker : Text) where
  -- `_finish`
  unfoldable pub finish : ScanStatus → ℕ → Option Text → ℕ → Db → Db × Result ScanJobRecord
  finish status findings message now db =
      if is_terminal status
      then give_back quota id now
          (settle id worker (finished status findings message now) without_lease db)
      else (db, err value_error)

  unfoldable pub complete : ℕ → ℕ → Db → Db × Result ScanJobRecord
  complete findings now db = finish succeeded findings none now db

  unfoldable pub acknowledge_cancel : ℕ → Db → Db × Result ScanJobRecord
  acknowledge_cancel now db = finish canceled 0 none now db

  -- A negative back-off is refused before; the back-off here is a number of seconds.
  unfoldable pub fail : Text → Bool → ℕ → ℕ → Db → Db × Result ScanJobRecord
  fail message retryable backoff_seconds now db = elim (lookup id db.queue) [
    | none ↦ (db, err runtime_error)
    | some q ↦
        if owned_by worker q.lease_owner
        then if retryable && ltb q.attempts q.max_attempts
          then give_back quota id now
              (settle id worker requeued (retried (now + seconds backoff_seconds)) db)
          else finish failed 0 (some message) now db
        else (db, err runtime_error)
  ]

  unfoldable pub should_cancel : Db → Result Bool
  should_cancel db = elim (lookup id db.queue) [
    | none ↦ err runtime_error
    | some q ↦ if owned_by worker q.lease_owner then ok q.cancel_requested else err runtime_error
  ]

unfoldable pub canceled_row : ScanQueueRecord → ScanQueueRecord
canceled_row q = record q { cancel_requested = true; lease_owner = none; lease_expires_at = none }

unfoldable pub flagged_row : ScanQueueRecord → ScanQueueRecord
flagged_row q = record q { cancel_requested = true }

unfoldable pub canceled_job : ℕ → ScanJobRecord → ScanJobRecord
canceled_job now job = record job { status = canceled; finished_at = some now }

-- The changes that a cancellation makes to a job that is not in a final status.
unfoldable pub cancel_rows : ℕ → ℕ → ScanStatus → Db → Db
cancel_rows id now status db =
    if is_queued status
    then record db {
      queue = modify id canceled_row db.queue;
      jobs = modify id (canceled_job now) db.jobs;
    }
    else record db { queue = modify id flagged_row db.queue }

unfoldable pub request_cancel : ℕ → ℕ → Db → Db × Result ScanJobRecord
request_cancel id now db = elim (lookup id db.jobs) [
  | none ↦ (db, err lookup_error)
  | some job ↦ elim (lookup id db.queue) [
    | none ↦ (db, err lookup_error)
    | some q ↦
        if is_terminal job.status
        then (db, ok job)
        else get_job id (cancel_rows id now job.status db)
  ]
]

-- The status that recovery gives a job whose lease has expired.
unfoldable pub recovered_status : ScanQueueRecord → ScanStatus
recovered_status q =
    if q.cancel_requested
    then canceled
    else if leb q.max_attempts q.attempts
    then failed
    else queued

unfoldable pub recovered_job : ℕ → ScanQueueRecord → ScanJobRecord → ScanJobRecord
recovered_job now q job =
    if q.cancel_requested
    then record job { status = canceled; finished_at = some now }
    else if leb q.max_attempts q.attempts
    then record job {
      status = failed;
      finished_at = some now;
      error_message = some (codes "worker lease expired after final attempt");
    }
    else record job { status = queued }

unfoldable pub recovered_row : ℕ → ScanQueueRecord → ScanQueueRecord
recovered_row now q =
    if q.cancel_requested || leb q.max_attempts q.attempts
    then without_lease q
    else record (without_lease q) { next_attempt_at = now }

unfoldable pub has_expired : ℕ → Option ℕ → Bool
has_expired now none = false
has_expired now (some expires) = leb expires now

-- One round of the loop: the workspace of a running job whose lease has expired.
unfoldable pub recover : ℕ → ℕ → Db → Db × Option (ℕ × Bool)
recover now id db = elim (lookup id db.queue) [
  | none ↦ (db, none)
  | some q ↦ elim (lookup id db.jobs) [
    | none ↦ (db, none)
    | some job ↦
        if is_running job.status && has_expired now q.lease_expires_at
        then (
          record db {
            queue = modify id (recovered_row now) db.queue;
            jobs = modify id (recovered_job now q) db.jobs;
          },
          some (job.workspace_id, is_queued (recovered_status q)),
        )
        else (db, none)
  ]
]

pub record Recovery : Type 0 where
  pub requeued : ℕ
  pub failed : ℕ
  pub released : List ℕ

abbrev pub tally : Option (ℕ × Bool) → Recovery → Recovery
tally none r = r
tally (some (workspace, true)) r = record r {
  requeued = r.requeued + 1;
  released = workspace ∷ r.released;
}
tally (some (workspace, false)) r = record r {
  failed = r.failed + 1;
  released = workspace ∷ r.released;
}

-- The transaction: the loop over the rows of the queue. A round tests and changes the rows of its
-- own job only, so that the test made in the round is the one of the `SELECT`.
unfoldable pub recover_all : ℕ → Table ScanQueueRecord → Db → Db × Recovery
recover_all now [] db = (db, record { requeued = 0; failed = 0; released = [] })
recover_all now ((id, q) ∷ rows) db =
    let (db', found) = recover now id db in
    let (db'', rest) = recover_all now rows db' in (db'', tally found rest)

unfoldable pub release_all : Bool → ℕ → List ℕ → Db → Db × Result (Unit {0})
release_all quota now [] db = (db, ok tt)
release_all quota now (workspace ∷ rest) db =
    let (released, outcome) = release_capacity quota workspace now db in
    let more = release_all quota now rest released in
    elim outcome [ err e ↦ (released, err e) | ok u ↦ more ]

unfoldable pub recover_expired_leases : Bool → ℕ → Db → Db × Result (ℕ × ℕ)
recover_expired_leases quota now db =
    let (db', r) = recover_all now db.queue db in
    let (db'', outcome) = release_all quota now r.released db' in
    (db'', elim outcome [ err e ↦ err e | ok u ↦ ok (r.requeued, r.failed) ])
