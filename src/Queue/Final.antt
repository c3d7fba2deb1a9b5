-- ===== src/Queue/Final.antt =====
-- Jobs in a final status, under the transactions of src/cryptohawk/storage/queue.py.
use crypto_hawk.Queue.Reads.{recover_read-recover, cancel_read-cancel}
use crypto_hawk.Prelude.{
  ℕ, ◌≡◌, true, some, arith, lookup, lookup-modify, lookup-insert, Text, Option-cases, inl, inr,
  Option,
}
use crypto_hawk.Store.{Db, ScanJobRecord, ScanQueueRecord, ScanStatus}
use crypto_hawk.Quotas.Capacity.{acquire-SameJobs, release-SameJobs}
use crypto_hawk.Queue.Claims.{claim, started}
use crypto_hawk.Queue.Leases.{
  settle, recover, recovered_job, request_cancel, cancel_rows, canceled_job, heartbeat, beat,
  is_terminal, get_job,
}
use crypto_hawk.Queue.Enqueue.{
  create_scan_job, add_row, new_job, Work, transition_scan_job, moved, is_allowed,
}
use crypto_hawk.Queue.Steps.{
  Sys, Step, acquires, claims, settles, recovers, releases, cancels, beats, creates, enqueues,
  Steps, here, next, transitions,
}

module _ (id k : ℕ) (db : Db) (final : ScanJobRecord) (at : lookup id db.jobs ≡ some final)
    (ended : is_terminal final.status ≡ true) where
  claim-final :
      (worker : Text) (expires now : ℕ)
      → lookup id (claim k worker expires now db).0.jobs ≡ some final
  unfolding claim is_terminal
  claim-final worker expires now = elim (Option-cases (lookup k db.queue)) [
    | inl e ↦ rw (e, claim) at
    | inr (q, e) ↦ elim (Option-cases (lookup k db.jobs)) [
      | inl e' ↦ rw (e, e', claim) at
      | inr (job, e') ↦ rw (e, e', claim) (ground (arith, lookup-modify id k (started now) db.jobs))
    ]
  ]

  settle-final :
      (worker : Text) (f : ScanJobRecord → ScanJobRecord) (g : ScanQueueRecord → ScanQueueRecord)
      → lookup id (settle k worker f g db).0.jobs ≡ some final
  unfolding settle is_terminal
  settle-final worker f g = elim (Option-cases (lookup k db.jobs)) [
    | inl e ↦ rw (e, settle) at
    | inr (job, e) ↦ elim (Option-cases (lookup k db.queue)) [
      | inl e' ↦ rw (e, e', settle) at
      | inr (q, e') ↦ rw (e, e', settle) (ground (arith, lookup-modify id k f db.jobs))
    ]
  ]

  recover-final : (now : ℕ) → lookup id (recover now k db).0.jobs ≡ some final
  unfolding recover is_terminal
  recover-final now = elim (Option-cases (lookup k db.queue)) [
    | inl e ↦ rw (e, recover) at
    | inr (q, e) ↦ elim (Option-cases (lookup k db.jobs)) [
      | inl e' ↦ rw (e, e', recover) at
      | inr (job, e') ↦
          rw (e, e', recover) (ground (arith, lookup-modify id k (recovered_job now q) db.jobs))
    ]
  ]

  cancel-final : (now : ℕ) → lookup id (request_cancel k now db).0.jobs ≡ some final
  unfolding request_cancel cancel_rows get_job is_terminal
  cancel-final now = elim (Option-cases (lookup k db.jobs)) [
    | inl e ↦ rw (e, request_cancel) at
    | inr (job, e) ↦ elim (Option-cases (lookup k db.queue)) [
      | inl e' ↦ rw (e, e', request_cancel) at
      | inr (q, e') ↦
          rw (e, e', request_cancel) (ground (arith, lookup-modify id k (canceled_job now) db.jobs))
    ]
  ]

  transition-final :
      (v : ℕ) (expected target : ScanStatus) (findings : Option ℕ) (message : Option Text) (now : ℕ)
      → lookup id (transition_scan_job v k expected target findings message now db).0.jobs
        ≡ some final
  unfolding transition_scan_job get_job is_terminal is_allowed
  transition-final v expected target findings message now = elim (Option-cases (lookup k db.jobs)) [
    | inl e ↦ rw (e, transition_scan_job) (ground arith)
    | inr (job, e) ↦
        rw (e, transition_scan_job)
          (ground (arith, lookup-modify id k (moved target findings message now) db.jobs))
  ]

  beat-final :
      (worker : Text) (lease_seconds now : ℕ)
      → lookup id (heartbeat k worker lease_seconds now db).0.jobs ≡ some final
  unfolding heartbeat beat
  beat-final worker lease_seconds now = ground arith

  create-final :
      (work : Work) (now : ℕ) → lookup id (create_scan_job k work now db).0.jobs ≡ some final
  unfolding create_scan_job
  create-final work now = elim (Option-cases (lookup k db.jobs)) [
    | inl e ↦
        rw (e, create_scan_job) (ground (arith, lookup-insert id k (new_job work now) db.jobs))
    | inr (job, e) ↦ rw (e, create_scan_job) (ground arith)
  ]

  add_row-final :
      (max_attempts now : ℕ) (job : ScanJobRecord)
      → lookup id (add_row k max_attempts now job db).0.jobs ≡ some final
  unfolding add_row
  add_row-final max_attempts now job = ground arith

Step-final :
    (w limit id : ℕ) (final : ScanJobRecord) {s t : Sys}
    → is_terminal final.status ≡ true
    → Step w limit s t
    → lookup id s.db.jobs ≡ some final
    → lookup id t.db.jobs ≡ some final
Step-final w limit id final {s} f (acquires v now e x) h =
    rw (e, (acquire-SameJobs v limit now s.db).jobs) h
Step-final w limit id final {s} f (claims k worker expires now x e y) h =
    rw e (claim-final id k s.db final h f worker expires now)
Step-final w limit id final {s} f (settles k worker g g' st e x) h =
    rw e (settle-final id k s.db final h f worker g g')
Step-final w limit id final {s} f (recovers now k seen still e x) h =
    rw (e, recover_read-recover now k seen s.db still) (recover-final id k s.db final h f now)
Step-final w limit id final {s} f (releases v now x e y) h =
    rw (e, (release-SameJobs v now s.db).jobs) h
Step-final w limit id final {s} f (cancels k now seen still e x) h =
    rw (e, cancel_read-cancel k now seen s.db still) (cancel-final id k s.db final h f now)
Step-final w limit id final {s} f (beats k worker lease_seconds now e x) h =
    rw e (beat-final id k s.db final h f worker lease_seconds now)
Step-final w limit id final {s} f (creates k work now e x) h =
    rw e (create-final id k s.db final h f work now)
Step-final w limit id final {s} f (enqueues k max_attempts now job e x) h =
    rw e (add_row-final id k s.db final h f max_attempts now job)
Step-final w limit id final {s} f (transitions v k expected target findings message now free y e x)
      h =
    rw e (transition-final id k s.db final h f v expected target findings message now)

-- A stored job that has succeeded, failed or been canceled is found again, unchanged in every
-- column, after any interleaving of the transactions of `Step`, where the writes of a recovery and of a
-- request for cancellation find the rows of their job as they were read.
pub Steps-final :
    (w limit id : ℕ) (final : ScanJobRecord) {s t : Sys}
    → is_terminal final.status ≡ true
    → Steps w limit s t
    → lookup id s.db.jobs ≡ some final
    → lookup id t.db.jobs ≡ some final
Steps-final w limit id final f here h = h
Steps-final w limit id final f (next r st) h =
    Step-final w limit id final f st (Steps-final w limit id final f r h)
