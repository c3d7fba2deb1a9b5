-- ===== src/Queue/Balance.antt =====
-- What each transaction of the queue does to the number of running jobs of a workspace.
use crypto_hawk.Quotas.Capacity.{is_ok}
use crypto_hawk.Prelude.{
  ℕ, ◌+◌, ◌≡◌, Bool, false, ◌&&◌, Option, none, some, Result, ok, err, arith, lookup, count, one_if,
  count-modify, count-insert, Text, ◌==◌, inl, inr, Option-cases, lookup-modify_self,
}
use crypto_hawk.Store.{Db, ScanJobRecord, ScanQueueRecord, is_running, ScanStatus}
use crypto_hawk.Queue.Claims.{claim, started}
use crypto_hawk.Queue.Leases.{
  settle, recover, recovered_job, request_cancel, cancel_rows, canceled_job, is_terminal, get_job,
  heartbeat, beat,
}
use crypto_hawk.Queue.Enqueue.{
  create_scan_job, new_job, Work, add_row, transition_scan_job, moved, is_run, is_allowed,
}

abbrev pub runs_in : ℕ → ScanJobRecord → Bool
runs_in w job = is_running job.status && (job.workspace_id == w)

-- The running jobs of a workspace.
abbrev pub running_in : ℕ → Db → ℕ
running_in w db = count (runs_in w) db.jobs

abbrev pub is_of : ℕ → Option ScanJobRecord → Bool
is_of w none = false
is_of w (some job) = job.workspace_id == w

-- The slot that a settled job of `w` frees.
abbrev pub freed : ℕ → Result ℕ → ℕ
freed w (err e) = 0
freed w (ok v) = one_if (v == w)

abbrev pub recovered : ℕ → Option (ℕ × Bool) → ℕ
recovered w none = 0
recovered w (some (v, again)) = one_if (v == w)

-- The slot that a transition from running frees, and the one that a transition to running takes.
abbrev pub ended : ℕ → ℕ → ScanStatus → Result ScanJobRecord → ℕ
ended w v expected r = one_if ((w == v) && (is_run expected && is_ok r))

abbrev pub begun : ℕ → ℕ → ScanStatus → Result ScanJobRecord → ℕ
begun w v target r = one_if ((w == v) && (is_run target && is_ok r))

module _ (w id : ℕ) (db : Db) where
  pub running-claim :
      (worker : Text) (expires now : ℕ)
      → running_in w (claim id worker expires now db).0
        ≡ running_in w db
          + one_if ((claim id worker expires now db).1 && is_of w (lookup id db.jobs))
  unfolding claim started
  running-claim worker expires now = elim (Option-cases (lookup id db.queue)) [
    | inl e ↦ rw (e, claim) (ground arith)
    | inr (q, e) ↦ elim (Option-cases (lookup id db.jobs)) [
      | inl e' ↦ rw (e, e', claim) (ground arith)
      | inr (job, e') ↦
          rw (e, e', claim) (ground (arith, count-modify (runs_in w) id (started now) db.jobs job))
    ]
  ]

  pub running-settle :
      (worker : Text) (f : ScanJobRecord → ScanJobRecord) (g : ScanQueueRecord → ScanQueueRecord)
      → ((job : ScanJobRecord) → is_running (f job).status ≡ false)
      → running_in w (settle id worker f g db).0 + freed w (settle id worker f g db).1
        ≡ running_in w db
  unfolding settle
  running-settle worker f g stops = elim (Option-cases (lookup id db.jobs)) [
    | inl e ↦ rw (e, settle) (ground arith)
    | inr (job, e) ↦ elim (Option-cases (lookup id db.queue)) [
      | inl e' ↦ rw (e, e', settle) (ground arith)
      | inr (q, e') ↦
          rw (e, e', settle) (ground (arith, stops job, count-modify (runs_in w) id f db.jobs job))
    ]
  ]

  pub running-recover :
      (now : ℕ)
      → running_in w (recover now id db).0 + recovered w (recover now id db).1 ≡ running_in w db
  unfolding recover recovered_job
  running-recover now = elim (Option-cases (lookup id db.queue)) [
    | inl e ↦ rw (e, recover) (ground arith)
    | inr (q, e) ↦ elim (Option-cases (lookup id db.jobs)) [
      | inl e' ↦ rw (e, e', recover) (ground arith)
      | inr (job, e') ↦
          rw (e, e', recover)
            (ground (arith, count-modify (runs_in w) id (recovered_job now q) db.jobs job))
    ]
  ]

  pub running-cancel : (now : ℕ) → running_in w (request_cancel id now db).0 ≡ running_in w db
  unfolding request_cancel cancel_rows canceled_job is_terminal get_job
  running-cancel now = elim (Option-cases (lookup id db.jobs)) [
    | inl e ↦ rw (e, request_cancel) (ground arith)
    | inr (job, e) ↦ elim (Option-cases (lookup id db.queue)) [
      | inl e' ↦ rw (e, e', request_cancel) (ground arith)
      | inr (q, e') ↦
          rw (e, e', request_cancel)
            (ground (arith, count-modify (runs_in w) id (canceled_job now) db.jobs job))
    ]
  ]

  pub running-beat :
      (worker : Text) (lease_seconds now : ℕ)
      → running_in w (heartbeat id worker lease_seconds now db).0 ≡ running_in w db
  unfolding heartbeat beat
  running-beat worker lease_seconds now = ground arith

  pub running-create :
      (work : Work) (now : ℕ) → running_in w (create_scan_job id work now db).0 ≡ running_in w db
  unfolding create_scan_job new_job
  running-create work now = ground (arith, count-insert (runs_in w) id (new_job work now) db.jobs)

  pub running-add_row :
      (max_attempts now : ℕ) (job : ScanJobRecord)
      → running_in w (add_row id max_attempts now job db).0 ≡ running_in w db
  unfolding add_row
  running-add_row max_attempts now job = ground arith

  pub running-transition :
      (v : ℕ) (expected target : ScanStatus) (findings : Option ℕ) (message : Option Text) (now : ℕ)
      → running_in w (transition_scan_job v id expected target findings message now db).0
          + ended w v expected (transition_scan_job v id expected target findings message now db).1
        ≡ running_in w db
          + begun w v target (transition_scan_job v id expected target findings message now db).1
  unfolding transition_scan_job get_job moved is_allowed
  running-transition v expected target findings message now =
      elim (Option-cases (lookup id db.jobs)) [
        | inl e ↦ rw (e, transition_scan_job) (ground arith)
        | inr (job, e) ↦
            rw (e, transition_scan_job)
              (ground (
                arith,
                count-modify (runs_in w) id (moved target findings message now) db.jobs job e,
                lookup-modify_self id (moved target findings message now) db.jobs job e,
              ))
      ]
