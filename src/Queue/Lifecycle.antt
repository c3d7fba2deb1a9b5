-- ===== src/Queue/Lifecycle.antt =====
-- One job and its row of the queue, under the transactions of src/cryptohawk/storage/queue.py.
use crypto_hawk.Queue.Reads.{recover_read-recover, cancel_read-cancel}
use crypto_hawk.Prelude.{
  ℕ, ◌+◌, ◌≤◌, ◌≡◌, Bool, true, false, Option, none, some, arith, lookup, lookup-modify,
  lookup-insert, Text, is_some, Option-cases, inl, inr, not, ◌||◌,
}
use crypto_hawk.Store.{Db, ScanJobRecord, ScanQueueRecord, is_running, seconds, ScanStatus}
use crypto_hawk.Quotas.Capacity.{acquire-SameJobs, release-SameJobs, SameJobs}
use crypto_hawk.Queue.Claims.{claim, started, leased, is_claimable}
use crypto_hawk.Queue.Leases.{
  settle, recover, recovered_job, recovered_row, request_cancel, cancel_rows, canceled_job,
  canceled_row, flagged_row, heartbeat, beat, beaten, finished, requeued, retried, without_lease,
  is_terminal, get_job,
}
use crypto_hawk.Queue.Enqueue.{
  create_scan_job, add_row, new_job, new_row, Work, transition_scan_job, moved,
}
use crypto_hawk.Queue.Steps.{
  Sys, Settles, finishes, retries, Step, acquires, claims, settles, recovers, releases, cancels,
  beats, creates, enqueues, Steps, here, next, transitions,
}

abbrev pub is_leased : Option ScanQueueRecord → Bool
is_leased none = false
is_leased (some q) = is_some q.lease_owner

abbrev pub runs : Option ScanJobRecord → Bool
runs none = false
runs (some job) = is_running job.status

abbrev pub WithinAttempts : Option ScanQueueRecord → Type 0
WithinAttempts none = Unit {0}
WithinAttempts (some q) = q.attempts ≤ q.max_attempts

-- A leased job is running, and no job is tried more often than its row allows.
pub record IsSound (id : ℕ) (db : Db) : Type 0 where
  pub leased_runs : (not (is_leased (lookup id db.queue)) || runs (lookup id db.jobs)) ≡ true
  pub attempts_capped : WithinAttempts (lookup id db.queue)

module _ (id k : ℕ) (db : Db) (h : IsSound id db) where
  claim-IsSound : (worker : Text) (expires now : ℕ) → IsSound id (claim k worker expires now db).0
  unfolding claim started leased is_claimable
  claim-IsSound worker expires now = elim (Option-cases (lookup k db.queue)) [
    | inl e ↦ rw (e, claim) h
    | inr (q, e) ↦ elim (Option-cases (lookup k db.jobs)) [
      | inl e' ↦ rw (e, e', claim) h
      | inr (job, e') ↦
          rw (e, e', claim)
            (ground (
              arith,
              lookup-modify id k (leased worker expires now) db.queue,
              lookup-modify id k (started now) db.jobs,
            ))
    ]
  ]

  settle-IsSound :
      (worker : Text) (f : ScanJobRecord → ScanJobRecord) (g : ScanQueueRecord → ScanQueueRecord)
      → Settles f g
      → IsSound id (settle k worker f g db).0
  unfolding settle without_lease retried
  settle-IsSound worker f g (finishes status findings message now t) = ground (
    arith,
    lookup-modify id k (finished status findings message now) db.jobs,
    lookup-modify id k without_lease db.queue,
  )
  settle-IsSound worker f g (retries again_at) =
      ground
        (arith, lookup-modify id k requeued db.jobs, lookup-modify id k (retried again_at) db.queue)

  recover-IsSound : (now : ℕ) → IsSound id (recover now k db).0
  unfolding recover recovered_row without_lease
  recover-IsSound now = elim (Option-cases (lookup k db.queue)) [
    | inl e ↦ rw (e, recover) h
    | inr (q, e) ↦ elim (Option-cases (lookup k db.jobs)) [
      | inl e' ↦ rw (e, e', recover) h
      | inr (job, e') ↦
          rw (e, e', recover)
            (ground (
              arith,
              lookup-modify id k (recovered_row now) db.queue,
              lookup-modify id k (recovered_job now q) db.jobs,
            ))
    ]
  ]

  cancel-IsSound : (now : ℕ) → IsSound id (request_cancel k now db).0
  unfolding request_cancel cancel_rows get_job canceled_row flagged_row canceled_job is_terminal
  cancel-IsSound now = elim (Option-cases (lookup k db.jobs)) [
    | inl e ↦ rw (e, request_cancel) h
    | inr (job, e) ↦ elim (Option-cases (lookup k db.queue)) [
      | inl e' ↦ rw (e, e', request_cancel) h
      | inr (q, e') ↦
          rw (e, e', request_cancel)
            (ground (
              arith,
              lookup-modify id k canceled_row db.queue,
              lookup-modify id k flagged_row db.queue,
              lookup-modify id k (canceled_job now) db.jobs,
            ))
    ]
  ]

  transition-IsSound :
      (v : ℕ) (expected target : ScanStatus) (findings : Option ℕ) (message : Option Text) (now : ℕ)
      → lookup k db.queue ≡ none
      → IsSound id (transition_scan_job v k expected target findings message now db).0
  unfolding transition_scan_job get_job
  transition-IsSound v expected target findings message now free =
      elim (Option-cases (lookup k db.jobs)) [
        | inl e ↦ rw (e, transition_scan_job) (ground arith)
        | inr (job, e) ↦
            rw (e, transition_scan_job)
              (ground (arith, lookup-modify id k (moved target findings message now) db.jobs))
      ]

  beat-IsSound :
      (worker : Text) (lease_seconds now : ℕ)
      → IsSound id (heartbeat k worker lease_seconds now db).0
  unfolding heartbeat beat beaten
  beat-IsSound worker lease_seconds now = elim (Option-cases (lookup k db.queue)) [
    | inl e ↦ rw (e, heartbeat) (ground arith)
    | inr (q, e) ↦
        rw (e, heartbeat)
          (ground (arith, lookup-modify id k (beaten (now + seconds lease_seconds) now) db.queue))
  ]

  create-IsSound : (work : Work) (now : ℕ) → IsSound id (create_scan_job k work now db).0
  unfolding create_scan_job
  create-IsSound work now = elim (Option-cases (lookup k db.jobs)) [
    | inl e ↦
        rw (e, create_scan_job) (ground (arith, lookup-insert id k (new_job work now) db.jobs))
    | inr (job, e) ↦ rw (e, create_scan_job) (ground arith)
  ]

  add_row-IsSound :
      (max_attempts now : ℕ) (job : ScanJobRecord)
      → IsSound id (add_row k max_attempts now job db).0
  unfolding add_row new_row
  add_row-IsSound max_attempts now job = elim (Option-cases (lookup k db.queue)) [
    | inl e ↦
        rw (e, add_row) (ground (arith, lookup-insert id k (new_row max_attempts now) db.queue))
    | inr (q, e) ↦ rw (e, add_row) (ground arith)
  ]

-- Nothing about a job is kept in the tables that the slots change.
SameJobs-IsSound : (id : ℕ) (db db' : Db) → SameJobs db db' → IsSound id db → IsSound id db'
SameJobs-IsSound id db db' same h = record {
  leased_runs = rw (same.jobs, same.queue) h.leased_runs;
  attempts_capped = rw same.queue h.attempts_capped;
}

Step-IsSound : (w limit id : ℕ) {s t : Sys} → Step w limit s t → IsSound id s.db → IsSound id t.db
Step-IsSound w limit id {s} (acquires v now e x) h =
    rw e (SameJobs-IsSound id s.db _ (acquire-SameJobs v limit now s.db) h)
Step-IsSound w limit id {s} (claims k worker expires now x e y) h =
    rw e (claim-IsSound id k s.db h worker expires now)
Step-IsSound w limit id {s} (settles k worker f g st e x) h =
    rw e (settle-IsSound id k s.db h worker f g st)
Step-IsSound w limit id {s} (recovers now k seen still e x) h =
    rw (e, recover_read-recover now k seen s.db still) (recover-IsSound id k s.db h now)
Step-IsSound w limit id {s} (releases v now x e y) h =
    rw e (SameJobs-IsSound id s.db _ (release-SameJobs v now s.db) h)
Step-IsSound w limit id {s} (cancels k now seen still e x) h =
    rw (e, cancel_read-cancel k now seen s.db still) (cancel-IsSound id k s.db h now)
Step-IsSound w limit id {s} (beats k worker lease_seconds now e x) h =
    rw e (beat-IsSound id k s.db h worker lease_seconds now)
Step-IsSound w limit id {s} (creates k work now e x) h = rw e (create-IsSound id k s.db h work now)
Step-IsSound w limit id {s} (enqueues k max_attempts now job e x) h =
    rw e (add_row-IsSound id k s.db h max_attempts now job)
Step-IsSound w limit id {s} (transitions v k expected target findings message now free y e x) h =
    rw e (transition-IsSound id k s.db h v expected target findings message now free)

-- Every interleaving of the transactions of `Step` keeps both of these for every job: when its row of
-- the queue has a lease, the job is running; and it was not tried more often than that row allows. In
-- `Step` a scan in a request is of a job without a row of the queue, and the writes of a recovery and
-- of a request for cancellation find the rows of their job as they were read.
pub Steps-IsSound :
    (w limit id : ℕ) {s t : Sys} → Steps w limit s t → IsSound id s.db → IsSound id t.db
Steps-IsSound w limit id here h = h
Steps-IsSound w limit id (next r st) h = Step-IsSound w limit id st (Steps-IsSound w limit id r h)
