-- ===== src/Queue/Steps.antt =====
-- The transactions of any number of workers, of the API (its queue and its scans in a request:
-- src/cryptohawk/services/scan_jobs.py) and of the recovery, in any order, as seen from one workspace
-- and its limit: between two transactions of one call, those of others may run. A transaction that
-- reads rows and writes them by their keys later (`recovers`, `cancels`) has the tables that it read,
-- any tables, as an argument, and finds the rows of its job as they were read. The code takes no lock
-- that would give this: Queue/Races has what happens without it. Not among them: what deletes jobs
-- (src/cryptohawk/storage/retention.py) and `reconcile_scan_slots`, which no code of the package calls.
use crypto_hawk.Queue.Reads.{recover_read, cancel_read, IsStillRead}
use crypto_hawk.Prelude.{
  ℕ, ◌+◌, ◌-◌, ◌≤◌, ◌≡◌, refl, true, false, ◌&&◌, Option, arith, lookup, one_if, Text, ◌==◌, none,
}
use crypto_hawk.Store.{Db, ScanJobRecord, ScanStatus, ScanQueueRecord, is_running}
use crypto_hawk.Quotas.{acquire_scan_slot, release_scan_slot}
use crypto_hawk.Quotas.Capacity.{active, granted, is_ok}
use crypto_hawk.Queue.Claims.{claim}
use crypto_hawk.Queue.Leases.{
  settle, recover, request_cancel, heartbeat, beat, finished, requeued, retried, without_lease,
  is_terminal, cancel_rows, get_job,
}
use crypto_hawk.Queue.Enqueue.{create_scan_job, add_row, Work, transition_scan_job, is_run}
use crypto_hawk.Queue.Balance.{running_in, is_of, freed, recovered, ended, begun}

-- The tables, and the slots of the workspace that calls under way hold: acquired for a claim that is
-- still to come, or freed by a job that has ended and still to be given back.
pub record Sys : Type 0 where
  pub db : Db
  pub held : ℕ

-- `finished` with a final status, or the requeueing of a retry: the job stops running.
pub data Settles
    : (ScanJobRecord → ScanJobRecord) → (ScanQueueRecord → ScanQueueRecord) → Type 0 where
  finishes :
      (status : ScanStatus) (findings : ℕ) (message : Option Text) (now : ℕ)
      → is_terminal status ≡ true
      → Settles (finished status findings message now) without_lease
  retries : (again_at : ℕ) → Settles requeued (retried again_at)

pub data Step (w limit : ℕ) (s t : Sys) : Type 0 where
  acquires :
      (v now : ℕ)
      → t.db ≡ (acquire_scan_slot v limit now s.db).0
      → t.held ≡ s.held + one_if ((w == v) && granted (acquire_scan_slot v limit now s.db).1)
      → Step w limit s t
  -- Only a call that holds a slot of the job's workspace claims the job.
  claims :
      (id : ℕ) (worker : Text) (expires now : ℕ)
      → (is_of w (lookup id s.db.jobs) ≡ true → 1 ≤ s.held)
      → t.db ≡ (claim id worker expires now s.db).0
      → t.held
        ≡ s.held - one_if ((claim id worker expires now s.db).1 && is_of w (lookup id s.db.jobs))
      → Step w limit s t
  settles :
      (id : ℕ) (worker : Text) (f : ScanJobRecord → ScanJobRecord)
      (g : ScanQueueRecord → ScanQueueRecord)
      → Settles f g
      → t.db ≡ (settle id worker f g s.db).0
      → t.held ≡ s.held + freed w (settle id worker f g s.db).1
      → Step w limit s t
  -- A row of the `SELECT` in `seen`, written when the job's rows are still as they were read.
  recovers :
      (now id : ℕ) (seen : Db)
      → IsStillRead id seen s.db
      → t.db ≡ (recover_read now id seen s.db).0
      → t.held ≡ s.held + recovered w (recover_read now id seen s.db).1
      → Step w limit s t
  -- Only a call that holds a slot gives one back.
  releases :
      (v now : ℕ)
      → ((w == v) ≡ true → 1 ≤ s.held)
      → t.db ≡ (release_scan_slot v now s.db).0
      → t.held ≡ s.held - one_if ((w == v) && is_ok (release_scan_slot v now s.db).1)
      → Step w limit s t
  cancels :
      (id now : ℕ) (seen : Db)
      → IsStillRead id seen s.db
      → t.db ≡ cancel_read id now seen s.db
      → t.held ≡ s.held
      → Step w limit s t
  beats :
      (id : ℕ) (worker : Text) (lease_seconds now : ℕ)
      → t.db ≡ (heartbeat id worker lease_seconds now s.db).0
      → t.held ≡ s.held
      → Step w limit s t
  creates :
      (id : ℕ) (work : Work) (now : ℕ)
      → t.db ≡ (create_scan_job id work now s.db).0
      → t.held ≡ s.held
      → Step w limit s t
  enqueues :
      (id max_attempts now : ℕ) (job : ScanJobRecord)
      → t.db ≡ (add_row id max_attempts now job s.db).0
      → t.held ≡ s.held
      → Step w limit s t
  -- `ScanJobService.run` moves a job that has no row of the queue: to running with a slot of its
  -- workspace that it holds, and from running before it gives the slot back.
  transitions :
      (v id : ℕ) (expected target : ScanStatus) (findings : Option ℕ) (message : Option Text)
      (now : ℕ)
      → lookup id s.db.queue ≡ none
      → (((w == v) && is_run target) ≡ true → 1 ≤ s.held)
      → t.db ≡ (transition_scan_job v id expected target findings message now s.db).0
      → t.held
        ≡ s.held
          + ended w v expected
              (transition_scan_job v id expected target findings message now s.db).1
          - begun w v target (transition_scan_job v id expected target findings message now s.db).1
      → Step w limit s t

pub data Steps (w limit : ℕ) (s : Sys) : Sys → Type 0 where
  here : Steps w limit s s
  next : {t u : Sys} → Steps w limit s t → Step w limit t u → Steps w limit s u

-- The recorded active scans are the running jobs and the slots that are held, within the limit.
pub record IsBalanced (w limit : ℕ) (s : Sys) : Type 0 where
  pub balanced : active w s.db ≡ running_in w s.db + s.held
  pub capped : active w s.db ≤ limit

pub Settles-stops :
    {f : ScanJobRecord → ScanJobRecord} {g : ScanQueueRecord → ScanQueueRecord}
    → Settles f g
    → (job : ScanJobRecord) → is_running (f job).status ≡ false
unfolding finished requeued is_terminal
Settles-stops (finishes status findings message now h) job = ground arith
Settles-stops (retries again_at) job = refl

module _ (w : ℕ) (db : Db) where
  pub active-claim :
      (id : ℕ) (worker : Text) (expires now : ℕ)
      → active w (claim id worker expires now db).0 ≡ active w db
  unfolding claim
  active-claim id worker expires now = ground arith

  pub active-settle :
      (id : ℕ) (worker : Text) (f : ScanJobRecord → ScanJobRecord)
      (g : ScanQueueRecord → ScanQueueRecord)
      → active w (settle id worker f g db).0 ≡ active w db
  unfolding settle
  active-settle id worker f g = ground arith

  pub active-recover : (now id : ℕ) → active w (recover now id db).0 ≡ active w db
  unfolding recover
  active-recover now id = ground arith

  pub active-cancel : (id now : ℕ) → active w (request_cancel id now db).0 ≡ active w db
  unfolding request_cancel cancel_rows get_job
  active-cancel id now = ground arith

  pub active-transition :
      (v id : ℕ) (expected target : ScanStatus) (findings : Option ℕ) (message : Option Text)
      (now : ℕ)
      → active w (transition_scan_job v id expected target findings message now db).0 ≡ active w db
  unfolding transition_scan_job get_job
  active-transition v id expected target findings message now = ground arith

  pub active-beat :
      (id : ℕ) (worker : Text) (lease_seconds now : ℕ)
      → active w (heartbeat id worker lease_seconds now db).0 ≡ active w db
  unfolding heartbeat beat
  active-beat id worker lease_seconds now = ground arith

  pub active-create :
      (id : ℕ) (work : Work) (now : ℕ) → active w (create_scan_job id work now db).0 ≡ active w db
  unfolding create_scan_job
  active-create id work now = ground arith

  pub active-add_row :
      (id max_attempts now : ℕ) (job : ScanJobRecord)
      → active w (add_row id max_attempts now job db).0 ≡ active w db
  unfolding add_row
  active-add_row id max_attempts now job = ground arith
