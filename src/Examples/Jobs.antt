-- ===== src/Examples/Jobs.antt =====
-- Jobs in the queue of src/cryptohawk/storage/queue.py.
use crypto_hawk.Prelude.{
  ℕ, ◌≡◌, ◌≤◌, ◌+◌, refl, true, false, none, some, codes, arith, Text, [], ◌∷◌, lookup, count,
  text_eq,
}
use crypto_hawk.Store.{
  Db, ScanJobRecord, ScanQueueRecord, ScanStatus, queued, running, succeeded, tls, owned_by,
}
use crypto_hawk.Quotas.Capacity.{active}
use crypto_hawk.Queue.{
  claim_next, claim, complete, fail, acknowledge_cancel, recover, requeued, has_expired,
  is_terminal, recovered_status, finished,
}
use crypto_hawk.Queue.Balance.{running_in}
use crypto_hawk.Queue.Steps.{IsBalanced}
use crypto_hawk.Queue.Calls.{Runs, sys, claim_next-Runs}
use crypto_hawk.Queue.Endings.{endings-Runs}
use crypto_hawk.Queue.Capacity.{running-le_limit}
use crypto_hawk.Queue.Lifecycle.{IsSound, Steps-IsSound}
use crypto_hawk.Queue.Final.{Steps-final}
use crypto_hawk.Queue.Ownership.{IsRefused, recover-IsRefused}
use crypto_hawk.Queue.Reads.{recover_read}
use crypto_hawk.Queue.Races.{complete-recover}
use crypto_hawk.Queue.Stuck.{fail-cancel_requested}

abbrev worker : Text
worker = codes "worker-1"

abbrev job_of : ScanStatus → ScanJobRecord
job_of status = record {
  workspace_id = 1;
  asset_id = 5;
  kind = tls;
  status = status;
  requested_at = 10;
  started_at = none;
  finished_at = none;
  findings_count = 0;
  error_message = none;
}

abbrev waiting : ScanQueueRecord
waiting = record {
  attempts = 0;
  max_attempts = 3;
  lease_owner = none;
  lease_expires_at = none;
  last_heartbeat_at = none;
  next_attempt_at = 10;
  cancel_requested = false;
}

abbrev claimed_row : ScanQueueRecord
claimed_row = record waiting {
  attempts = 1;
  lease_owner = some worker;
  lease_expires_at = some 100;
  last_heartbeat_at = some 20;
}

abbrev tables : ScanJobRecord → ScanQueueRecord → ℕ → Db
tables job row active = record {
  workspaces = 1 ∷ [];
  assets = (5, record { workspace_id = 1; enabled = true }) ∷ [];
  jobs = (10, job) ∷ (11, job_of succeeded) ∷ [];
  queue = (10, row) ∷ [];
  runtime = (1, record { active_scans = active; updated_at = 0 }) ∷ [];
}

-- A job that waits, and the same job under the lease of a worker.
abbrev idle : Db
idle = tables (job_of queued) waiting 0

abbrev busy : Db
busy = tables (job_of running) claimed_row 1

abbrev canceling : ScanQueueRecord
canceling = record claimed_row { cancel_requested = true }

idle-IsBalanced : IsBalanced 1 2 (sys idle 0)
unfolding count lookup
idle-IsBalanced = record { balanced = refl; capped = omega arith }

claim_next-Runs_example : Runs 1 2 idle (claim_next true worker 60 (some 2) 100 idle).0
claim_next-Runs_example = claim_next-Runs 1 worker 60 2 100 idle

running-le_limit_example :
    let (held, r) = claim_next-Runs 1 worker 60 2 100 idle 0 in
    (active 1 (claim_next true worker 60 (some 2) 100 idle).0
      ≡ running_in 1 (claim_next true worker 60 (some 2) 100 idle).0 + held)
    × (running_in 1 (claim_next true worker 60 (some 2) 100 idle).0 ≤ 2)
running-le_limit_example =
    running-le_limit 1 2 idle-IsBalanced (claim_next-Runs 1 worker 60 2 100 idle 0).1

endings-Runs_example :
    Runs 1 2 busy (complete true 10 worker 7 50 busy).0
    × Runs 1 2 busy (acknowledge_cancel true 10 worker 50 busy).0
    × Runs 1 2 busy (fail true 10 worker (codes "timeout") true 5 50 busy).0
endings-Runs_example = endings-Runs 1 2 10 worker 50 busy 7 (codes "timeout") true 5

idle-IsSound : IsSound 10 idle
unfolding lookup
idle-IsSound = record { leased_runs = refl; attempts_capped = omega arith }

Steps-IsSound_example : IsSound 10 (claim_next true worker 60 (some 2) 100 idle).0
Steps-IsSound_example =
    Steps-IsSound 1 2 10 (claim_next-Runs 1 worker 60 2 100 idle 0).1 idle-IsSound

Steps-final_example :
    lookup 11 (claim_next true worker 60 (some 2) 100 idle).0.jobs ≡ some (job_of succeeded)
unfolding lookup is_terminal
Steps-final_example =
    Steps-final 1 2 11 (job_of succeeded) refl (claim_next-Runs 1 worker 60 2 100 idle 0).1 refl

busy_recovered : (recover 200 10 busy).1 ≡ some (1, true)
unfolding recover lookup has_expired recovered_status
busy_recovered = refl

recover-IsRefused_example : IsRefused true 10 worker (recover 200 10 busy).0
recover-IsRefused_example = recover-IsRefused true 10 200 worker busy 1 true busy_recovered

busy_job : lookup 10 busy.jobs ≡ some (job_of running)
unfolding lookup
busy_job = refl

busy_row : lookup 10 busy.queue ≡ some claimed_row
unfolding lookup
busy_row = refl

busy_owned : owned_by worker claimed_row.lease_owner ≡ true
unfolding owned_by text_eq
busy_owned = refl

busy_late : has_expired 200 claimed_row.lease_expires_at ≡ true
unfolding has_expired
busy_late = refl

complete-recover_example :
    let done = (complete true 10 worker 7 150 busy).0 in
    let (after, released) = recover_read 200 10 busy done in
    (lookup 10 done.jobs ≡ some (finished succeeded 7 none 150 (job_of running)))
    × (released ≡ some (1, true))
    × (lookup 10 after.jobs
        ≡ some (record (finished succeeded 7 none 150 (job_of running)) { status = queued }))
complete-recover_example =
    complete-recover true 10 worker 7 150 200 busy (job_of running) claimed_row busy_job busy_row
      refl busy_owned busy_late refl (omega arith)

canceling_row : lookup 10 (tables (job_of running) canceling 1).queue ≡ some canceling
unfolding lookup
canceling_row = refl

canceling_job : lookup 10 (tables (job_of running) canceling 1).jobs ≡ some (job_of running)
unfolding lookup
canceling_job = refl

worker_owns : owned_by worker canceling.lease_owner ≡ true
unfolding owned_by text_eq
worker_owns = refl

fail-cancel_requested_example :
    let after =
      (fail true 10 worker (codes "timeout") true 5 50 (tables (job_of running) canceling 1)).0 in
    (lookup 10 after.jobs ≡ some (requeued (job_of running)))
    × ((other : Text) (expires later : ℕ) → claim 10 other expires later after ≡ (after, false))
    × ((later : ℕ) → recover later 10 after ≡ (after, none))
fail-cancel_requested_example =
    fail-cancel_requested true 10 worker (codes "timeout") 5 50
      (tables (job_of running) canceling 1) (job_of running) canceling canceling_job canceling_row
      refl worker_owns refl (omega arith)
