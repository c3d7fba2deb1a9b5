-- ===== src/Examples/Calendar.antt =====
-- A schedule of src/cryptohawk/storage/continuous.py whose worker comes two runs late.
use crypto_hawk.Prelude.{
  ℕ, ◌+◌, ◌*◌, ◌≤◌, ◌<◌, max, true, false, none, some, [], ◌∷◌, codes, ◌≡◌, refl, arith, lookup,
}
use crypto_hawk.Store.{seconds}
use crypto_hawk.Continuous.{ScanScheduleRecord, advance_schedule}
use crypto_hawk.Continuous.Occurrences.{advance_schedule-once}

abbrev minutely : ScanScheduleRecord
minutely = record {
  workspace_id = 1;
  asset_id = 5;
  interval_seconds = 60;
  max_attempts = 3;
  enabled = true;
  next_run_at = 0;
  last_run_at = none;
  created_by = codes "ann";
  created_at = 0;
  updated_at = 0;
}

advance_schedule-once_example :
    let after = (advance_schedule 1 7 60 0 150000000 ((7, minutely) ∷ [])).0 in
    (row : ScanScheduleRecord) × (k : ℕ) × (lookup 7 after ≡ some row)
    × (row.last_run_at ≡ some 0)
    × (150000000 < row.next_run_at)
    × (row.next_run_at ≤ max (0 + seconds 60) (150000000 + seconds 60))
    × (row.next_run_at ≡ 0 + seconds 60 + k * seconds 60)
    × (advance_schedule 1 7 60 0 200000000 after ≡ (after, false))
unfolding advance_schedule lookup
advance_schedule-once_example =
    advance_schedule-once 1 7 60 0 150000000 200000000 ((7, minutely) ∷ [])
      (advance_schedule 1 7 60 0 150000000 ((7, minutely) ∷ [])).0 (omega arith) refl
