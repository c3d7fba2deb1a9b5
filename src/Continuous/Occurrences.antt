-- ===== src/Continuous/Occurrences.antt =====
-- The runs of a schedule (`advance_schedule` of src/cryptohawk/storage/continuous.py).
use crypto_hawk.Prelude.{
  ℕ, zero, suc, ◌+◌, ◌*◌, ◌≤◌, ◌<◌, max, true, false, some, ◌≡◌, refl, arith, Table, lookup, modify,
  lookup-modify_self, Option-cases, Bool-cases, inl, inr, leb,
}
use crypto_hawk.Store.{seconds}
use crypto_hawk.Continuous.Schedules.{
  ScanScheduleRecord, next_after, next_run, advanced, advance_schedule,
}

-- Enough fuel takes the loop past now, and not further than it must.
next_after-bounds :
    (fuel interval now next : ℕ)
    → 0 < interval
    → now < fuel + next
    → (now < next_after fuel interval now next)
      × (next ≤ next_after fuel interval now next)
      × (next_after fuel interval now next ≤ max next (now + interval))
unfolding next_after
next_after-bounds zero interval now next p h = (omega arith, omega arith, omega arith)
next_after-bounds (suc fuel) interval now next p h =
    ground (arith, next_after-bounds fuel interval now (next + interval) p (omega arith))

-- The loop only adds the interval.
next_after-steps :
    (fuel interval now next : ℕ)
    → (k : ℕ) × (next_after fuel interval now next ≡ next + k * interval)
unfolding next_after
next_after-steps zero interval now next = (0, omega arith)
next_after-steps (suc fuel) interval now next = elim (Bool-cases (leb next now)) [
  | inr e ↦ (0, rw (e, next_after) (omega arith))
  | inl e ↦
      (let (k, q) = next_after-steps fuel interval now (next + interval) in
        (suc k, rw (e, next_after) (omega (arith, q))))
]

seconds_positive : (n : ℕ) → 0 < n → 0 < seconds n
seconds_positive n p = omega arith

-- A schedule with a positive interval that is advanced from a run is stored with a next run
-- after now, no more than an interval after now or after the run, and a whole number of intervals,
-- one at least, after that run; the run is recorded as the last one; and to advance it from the same
-- run again, at any time, is refused and changes nothing.
pub advance_schedule-once :
    (workspace id interval scheduled_for now later : ℕ) (schedules after : Table ScanScheduleRecord)
    → 0 < interval
    → advance_schedule workspace id interval scheduled_for now schedules ≡ (after, true)
    → (row : ScanScheduleRecord) × (k : ℕ) × (lookup id after ≡ some row)
      × (row.last_run_at ≡ some scheduled_for)
      × (now < row.next_run_at)
      × (row.next_run_at ≤ max (scheduled_for + seconds interval) (now + seconds interval))
      × (row.next_run_at ≡ scheduled_for + seconds interval + k * seconds interval)
      × (advance_schedule workspace id interval scheduled_for later after ≡ (after, false))
unfolding advance_schedule next_run
advance_schedule-once workspace id interval scheduled_for now later schedules after p e =
    elim (Option-cases (lookup id schedules)) [
      | inl n ↦ ground (arith, n)
      | inr (row, f) ↦
          (let table : modify id (advanced interval scheduled_for now) schedules ≡ after =
              ground (arith, f) in
            let stored : lookup id after ≡ some (advanced interval scheduled_for now row) =
              rw (← table)
                (lookup-modify_self id (advanced interval scheduled_for now) schedules row f) in
            let (above, from, below) =
              next_after-bounds (now + 1) (seconds interval) now (scheduled_for + seconds interval)
                (seconds_positive interval p) (omega arith) in
            let (k, steps) =
              next_after-steps (now + 1) (seconds interval) now
                (scheduled_for + seconds interval) in
            (
              advanced interval scheduled_for now row,
              k,
              stored,
              refl,
              above,
              below,
              steps,
              rw (stored, advance_schedule) (ground (arith, from, seconds_positive interval p)),
            ))
    ]
