-- ===== src/Continuous/Schedules.antt =====
-- `create_schedule`, `set_schedule_enabled` and `advance_schedule` of
-- src/cryptohawk/storage/continuous.py. `id` is the fresh identifier of a new schedule.
use crypto_hawk.Prelude.{
  ℕ, zero, suc, ◌+◌, Bool, true, false, ◌&&◌, ◌||◌, Option, none, some, [], ◌∷◌, Result, ok, err,
  value_error, lookup_error, Text, Table, lookup, modify, insert, leb, ◌==◌, if◌then◌else◌, not,
}
use crypto_hawk.Store.{Db, seconds, is_blank}
use crypto_hawk.Queue.{has_asset}

pub record ScanScheduleRecord : Type 0 where
  pub workspace_id : ℕ
  pub asset_id : ℕ
  pub interval_seconds : ℕ
  pub max_attempts : ℕ
  pub enabled : Bool
  pub next_run_at : ℕ
  pub last_run_at : Option ℕ
  pub created_by : Text
  pub created_at : ℕ
  pub updated_at : ℕ

-- The unique constraint on workspace and asset.
unfoldable pub has_schedule : ℕ → ℕ → Table ScanScheduleRecord → Bool
has_schedule workspace asset [] = false
has_schedule workspace asset ((id, row) ∷ rows) =
    ((row.workspace_id == workspace) && (row.asset_id == asset))
    || has_schedule workspace asset rows

-- `_utc(first_run_at) if first_run_at is not None else current`
abbrev pub first_or : ℕ → Option ℕ → ℕ
first_or now none = now
first_or now (some at) = at

unfoldable pub schedule_arguments_valid : ℕ → ℕ → Text → Bool
schedule_arguments_valid interval max_attempts created_by =
    leb 60 interval
    && (leb interval 2592000
        && (leb 1 max_attempts && (leb max_attempts 20 && not (is_blank created_by))))

unfoldable pub create_schedule :
    ℕ
    → ℕ
    → ℕ
    → ℕ
    → ℕ
    → Option ℕ
    → Text
    → ℕ
    → Db
    → Table ScanScheduleRecord
    → Result (Table ScanScheduleRecord)
create_schedule id workspace asset interval max_attempts first_run_at created_by now db schedules =
    if schedule_arguments_valid interval max_attempts created_by
    then (if has_asset workspace asset db
        then (if has_schedule workspace asset schedules
            then err value_error
            else ok (
                insert id
                  (record {
                    workspace_id = workspace;
                    asset_id = asset;
                    interval_seconds = interval;
                    max_attempts = max_attempts;
                    enabled = true;
                    next_run_at = first_or now first_run_at;
                    last_run_at = none;
                    created_by = created_by;
                    created_at = now;
                    updated_at = now;
                  })
                  schedules))
        else err lookup_error)
    else err value_error

-- The next run is set again only when the schedule is enabled with a time to resume at.
abbrev pub resumed : Bool → Option ℕ → ℕ → ℕ
resumed true (some at) next = at
resumed true none next = next
resumed false resume_at next = next

unfoldable pub set_schedule_enabled :
    ℕ → ℕ → Bool → Option ℕ → ℕ → Table ScanScheduleRecord → Result (Table ScanScheduleRecord)
set_schedule_enabled workspace id enabled resume_at now schedules = elim (lookup id schedules) [
  | none ↦ err lookup_error
  | some row ↦
      if row.workspace_id == workspace
      then ok (
          modify id
            (λ r. record r {
              enabled = enabled;
              next_run_at = resumed enabled resume_at r.next_run_at;
              updated_at = now;
            })
            schedules)
      else err lookup_error
]

-- `while next_run <= current: next_run += interval`, on fuel
unfoldable pub next_after : ℕ → ℕ → ℕ → ℕ → ℕ
next_after zero interval now next = next
next_after (suc fuel) interval now next =
    let later = next_after fuel interval now (next + interval) in
    if leb next now then later else next

-- The loop runs at most once for each microsecond up to now.
unfoldable pub next_run : ℕ → ℕ → ℕ → ℕ
next_run interval scheduled_for now =
    next_after (now + 1) (seconds interval) now (scheduled_for + seconds interval)

abbrev pub advanced : ℕ → ℕ → ℕ → ScanScheduleRecord → ScanScheduleRecord
advanced interval scheduled_for now row = record row {
  last_run_at = some scheduled_for;
  next_run_at = next_run interval scheduled_for now;
  updated_at = now;
}

-- `interval` is that of the schedule as the caller has read it.
unfoldable pub advance_schedule :
    ℕ → ℕ → ℕ → ℕ → ℕ → Table ScanScheduleRecord → Table ScanScheduleRecord × Bool
advance_schedule workspace id interval scheduled_for now schedules = elim (lookup id schedules) [
  | none ↦ (schedules, false)
  | some row ↦
      if (row.workspace_id == workspace) && (row.enabled && (row.next_run_at == scheduled_for))
      then (modify id (advanced interval scheduled_for now) schedules, true)
      else (schedules, false)
]
