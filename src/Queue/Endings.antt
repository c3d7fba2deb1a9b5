-- ===== src/Queue/Endings.antt =====
-- `complete`, `acknowledge_cancel` and `fail` of src/cryptohawk/storage/queue.py, taken apart into
-- their transactions.
use crypto_hawk.Prelude.{
  ℕ, ◌+◌, ◌≤◌, ◌≡◌, refl, Bool, true, ◌&&◌, Option, none, some, Result, ok, Text, arith, lookup,
  ◌==◌, Bool-cases, Result-cases, Option-cases, inl, inr, ltb,
}
use crypto_hawk.Store.{
  Db, ScanJobRecord, ScanQueueRecord, ScanStatus, owned_by, seconds, succeeded, canceled, failed,
}
use crypto_hawk.Quotas.{release_scan_slot}
use crypto_hawk.Queue.Claims.{release_capacity}
use crypto_hawk.Queue.Leases.{
  settle, give_back, finish, complete, acknowledge_cancel, fail, finished, requeued, retried,
  without_lease, is_terminal, get_job,
}
use crypto_hawk.Queue.Balance.{freed}
use crypto_hawk.Queue.Steps.{Settles, finishes, retries, settles, releases, Steps, here, next}
use crypto_hawk.Queue.Calls.{Runs, sys}

holds_freed : (w v h : ℕ) (x : Result ℕ) → x ≡ ok v → (w == v) ≡ true → 1 ≤ h + freed w x
holds_freed w v h x e same = ground arith

settle-Runs :
    (w limit id : ℕ) (worker : Text) (f : ScanJobRecord → ScanJobRecord)
    (g : ScanQueueRecord → ScanQueueRecord) (now : ℕ) (db : Db)
    → Settles f g
    → Runs w limit db (give_back true id now (settle id worker f g db)).0
unfolding give_back release_capacity get_job
settle-Runs w limit id worker f g now db st held = elim (Result-cases (settle id worker f g db).1) [
  | inr (x, e) ↦ rw (e, give_back) (_, settled)
  | inl (v, e) ↦ elim (Result-cases (release_scan_slot v now (settle id worker f g db).0).1) [
    | inr (x, raised) ↦ rw (e, raised, give_back) (given v e)
    | inl (u, back) ↦ rw (e, back, give_back) (given v e)
  ]
]
  where
    settled :
        Steps w limit
          (sys db held)
          (sys (settle id worker f g db).0 (held + freed w (settle id worker f g db).1))
    settled = next here (settles id worker f g st refl refl)

    given :
        (v : ℕ)
        → (settle id worker f g db).1 ≡ ok v
        → (held' : ℕ) × Steps w limit
            (sys db held)
            (sys (release_scan_slot v now (settle id worker f g db).0).0 held')
    given v e = (_, next settled (releases v now (holds_freed w v held _ e) refl refl))

stay : (w limit : ℕ) (db : Db) → Runs w limit db db
stay w limit db held = (held, here)

finish-Runs :
    (w limit id : ℕ) (worker : Text) (status : ScanStatus) (findings : ℕ) (message : Option Text)
    (now : ℕ) (db : Db)
    → Runs w limit db (finish true id worker status findings message now db).0
unfolding finish
finish-Runs w limit id worker status findings message now db =
    elim (Bool-cases (is_terminal status)) [
      | inl e ↦ rw e (
          settle-Runs w limit id worker (finished status findings message now) without_lease now db
            (finishes status findings message now e))
      | inr e ↦ rw e (stay w limit db)
    ]

-- Completing a job, acknowledging its cancellation and reporting its failure, with quotas, are
-- each an interleaving of the transactions, whatever they return or raise and whatever slots other
-- calls hold.
pub endings-Runs :
    (w limit id : ℕ) (worker : Text) (now : ℕ) (db : Db) (findings : ℕ) (message : Text)
    (retryable : Bool) (backoff : ℕ)
    → Runs w limit db (complete true id worker findings now db).0
      × Runs w limit db (acknowledge_cancel true id worker now db).0
      × Runs w limit db (fail true id worker message retryable backoff now db).0
unfolding complete acknowledge_cancel fail
endings-Runs w limit id worker now db findings message retryable backoff = (
  finish-Runs w limit id worker succeeded findings none now db,
  finish-Runs w limit id worker canceled 0 none now db,
  elim (Option-cases (lookup id db.queue)) [
    | inl e ↦ rw (e, fail) (stay w limit db)
    | inr (q, e) ↦ elim (Bool-cases (owned_by worker q.lease_owner)) [
      | inr other ↦ rw (e, other, fail) (stay w limit db)
      | inl owns ↦ elim (Bool-cases (retryable && ltb q.attempts q.max_attempts)) [
        | inl again ↦
            rw (e, owns, again, fail)
              (settle-Runs w limit id worker requeued (retried (now + seconds backoff)) now db
                (retries (now + seconds backoff)))
        | inr over ↦
            rw (e, owns, over, fail) (finish-Runs w limit id worker failed 0 (some message) now db)
      ]
    ]
  ],
)
