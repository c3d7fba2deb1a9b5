-- ===== src/Queue/Capacity.antt =====
-- The scans that count against the limit of a workspace, under the transactions of
-- src/cryptohawk/storage/queue.py, src/cryptohawk/storage/inventory.py and
-- src/cryptohawk/storage/quotas.py.
use crypto_hawk.Queue.Enqueue.{is_run, transition_scan_job}
use crypto_hawk.Queue.Reads.{recover_read-recover, cancel_read-cancel}
use crypto_hawk.Store.{Db}
use crypto_hawk.Prelude.{
  ℕ, ◌+◌, ◌-◌, ◌≤◌, ◌≡◌, arith, Bool-cases, ◌==◌, ◌&&◌, Bool, inl, &&-eq_true, true, ==_iff, one_if,
  inr,
}
use crypto_hawk.Quotas.{acquire_scan_slot, release_scan_slot}
use crypto_hawk.Quotas.Capacity.{
  active, granted, active-acquire, active-release, acquire-le_limit, acquire-SameJobs,
  release-SameJobs, is_ok,
}
use crypto_hawk.Queue.Balance.{
  running_in, running-claim, running-settle, running-recover, running-cancel, running-beat,
  running-create, running-add_row, running-transition,
}
use crypto_hawk.Queue.Steps.{
  Sys, Step, acquires, claims, settles, recovers, releases, cancels, beats, creates, enqueues,
  Steps, here, next, IsBalanced, Settles-stops, active-claim, active-settle, active-recover,
  active-cancel, active-beat, active-create, active-add_row, transitions, active-transition,
}

running-acquire :
    (w v limit now : ℕ) (db : Db)
    → running_in w (acquire_scan_slot v limit now db).0 ≡ running_in w db
running-acquire w v limit now db = rw (acquire-SameJobs v limit now db).jobs

running-release :
    (w v now : ℕ) (db : Db) → running_in w (release_scan_slot v now db).0 ≡ running_in w db
running-release w v now db = rw (release-SameJobs v now db).jobs

acquire-capped :
    (w v limit now : ℕ) (db : Db)
    → active w db ≤ limit
    → active w (acquire_scan_slot v limit now db).0 ≤ limit
acquire-capped w v limit now db h =
    elim (Bool-cases ((w == v) && granted (acquire_scan_slot v limit now db).1)) [
      | inl e ↦
          let (same, given) = &&-eq_true (w == v) _ e in
          rw ((==_iff w v).0 same) (acquire-le_limit v limit now db given)
      | inr e ↦ rw (active-acquire w v limit now db, e) (omega arith)
    ]

claim_balance :
    (a r h : ℕ) (x y : Bool)
    → (y ≡ true → 1 ≤ h)
    → a ≡ r + h
    → a ≡ r + one_if (x && y) + (h - one_if (x && y))
claim_balance a r h x y holds e = ground arith

release_balance :
    (a r h : ℕ) (x y : Bool)
    → (x ≡ true → 1 ≤ h)
    → a ≡ r + h
    → a - one_if (x && y) ≡ r + (h - one_if (x && y))
release_balance a r h x y holds e = ground arith

transition_balance :
    (a r r' h : ℕ) (x y z u : Bool)
    → ((x && y) ≡ true → 1 ≤ h)
    → a ≡ r + h
    → r' + one_if (x && (u && z)) ≡ r + one_if (x && (y && z))
    → a ≡ r' + (h + one_if (x && (u && z)) - one_if (x && (y && z)))
transition_balance a r r' h x y z u holds e d = ground arith

Step-IsBalanced :
    (w limit : ℕ) {s t : Sys} → Step w limit s t → IsBalanced w limit s → IsBalanced w limit t
Step-IsBalanced w limit {s} {t} (acquires v now e h) b = record {
  balanced =
      rw (e, h, active-acquire w v limit now s.db, running-acquire w v limit now s.db)
        (omega (arith, b.balanced));
  capped = rw e (acquire-capped w v limit now s.db b.capped);
}
Step-IsBalanced w limit {s} {t} (claims id worker expires now holds e h) b = record {
  balanced =
      rw
        (
          e,
          h,
          active-claim w s.db id worker expires now,
          running-claim w id s.db worker expires now,
        )
        (claim_balance _ _ s.held _ _ holds b.balanced);
  capped = rw (e, active-claim w s.db id worker expires now) b.capped;
}
Step-IsBalanced w limit {s} {t} (settles id worker f g st e h) b = record {
  balanced =
      rw (e, h, active-settle w s.db id worker f g)
        (omega (arith, b.balanced, running-settle w id s.db worker f g (Settles-stops st)));
  capped = rw (e, active-settle w s.db id worker f g) b.capped;
}
Step-IsBalanced w limit {s} {t} (recovers now id seen still e h) b =
    let same = recover_read-recover now id seen s.db still in
    record {
      balanced =
          rw (e, h, same, active-recover w s.db now id)
            (omega (arith, b.balanced, running-recover w id s.db now));
      capped = rw (e, same, active-recover w s.db now id) b.capped;
    }
Step-IsBalanced w limit {s} {t} (releases v now holds e h) b = record {
  balanced =
      rw (e, h, active-release w v now s.db, running-release w v now s.db)
        (release_balance _ _ s.held _ _ holds b.balanced);
  capped = rw (e, active-release w v now s.db) (omega (arith, b.capped));
}
Step-IsBalanced w limit {s} {t} (cancels id now seen still e h) b =
    let same = cancel_read-cancel id now seen s.db still in
    record {
      balanced =
          rw (e, h, same, active-cancel w s.db id now, running-cancel w id s.db now) b.balanced;
      capped = rw (e, same, active-cancel w s.db id now) b.capped;
    }
Step-IsBalanced w limit {s} {t} (beats id worker lease_seconds now e h) b = record {
  balanced =
      rw
        (
          e,
          h,
          active-beat w s.db id worker lease_seconds now,
          running-beat w id s.db worker lease_seconds now,
        )
        b.balanced;
  capped = rw (e, active-beat w s.db id worker lease_seconds now) b.capped;
}
Step-IsBalanced w limit {s} {t} (creates id work now e h) b = record {
  balanced =
      rw (e, h, active-create w s.db id work now, running-create w id s.db work now) b.balanced;
  capped = rw (e, active-create w s.db id work now) b.capped;
}
Step-IsBalanced w limit {s} {t} (enqueues id max_attempts now job e h) b = record {
  balanced =
      rw
        (
          e,
          h,
          active-add_row w s.db id max_attempts now job,
          running-add_row w id s.db max_attempts now job,
        )
        b.balanced;
  capped = rw (e, active-add_row w s.db id max_attempts now job) b.capped;
}
Step-IsBalanced w limit {s} {t}
      (transitions v id expected target findings message now free holds e h) b =
    record {
      balanced =
          rw (e, h, active-transition w s.db v id expected target findings message now)
            (transition_balance _ _ _ s.held (w == v) (is_run target)
              (is_ok (transition_scan_job v id expected target findings message now s.db).1)
              (is_run expected) holds b.balanced
              (running-transition w id s.db v expected target findings message now));
      capped = rw (e, active-transition w s.db v id expected target findings message now) b.capped;
    }

pub Steps-IsBalanced :
    (w limit : ℕ) {s t : Sys} → Steps w limit s t → IsBalanced w limit s → IsBalanced w limit t
Steps-IsBalanced w limit here b = b
Steps-IsBalanced w limit (next r st) b = Step-IsBalanced w limit st (Steps-IsBalanced w limit r b)

-- From tables whose recorded scans of a workspace are its running jobs and the slots held, within
-- the limit, every interleaving of the transactions of `Step` leads to tables where the recorded scans
-- are again its running jobs and the slots held, and where its running jobs are within the limit. In
-- `Step` a claim, a release and a scan that starts in a request are by a call that holds a slot of
-- the workspace, a scan in a request is of a job without a row of the queue, and the writes of a
-- recovery and of a request for cancellation find the rows of their job as they were read.
pub running-le_limit :
    (w limit : ℕ) {s t : Sys}
    → IsBalanced w limit s
    → Steps w limit s t
    → (active w t.db ≡ running_in w t.db + t.held) × (running_in w t.db ≤ limit)
running-le_limit w limit {s} {t} b r =
    let after = Steps-IsBalanced w limit r b in
    (after.balanced, omega (arith, after.balanced, after.capped))
