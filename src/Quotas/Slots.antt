-- ===== src/Quotas/Slots.antt =====
-- The running-scan slots of a workspace (`_ensure_workspace_runtime`, `acquire_scan_slot` and
-- `release_scan_slot` of src/cryptohawk/storage/quotas.py). A call returns the tables that it leaves,
-- also when it raises.
use crypto_hawk.Prelude.{
  ℕ, ◌+◌, ◌-◌, Bool, true, false, none, some, Result, ok, err, value_error, lookup_error, lookup,
  modify, insert, member, ltb, if◌then◌else◌,
}
use crypto_hawk.Store.{Db, WorkspaceRuntimeRecord}

-- `_ensure_workspace_runtime`
unfoldable pub ensure_workspace_runtime : ℕ → ℕ → Db → Result Db
ensure_workspace_runtime workspace now db =
    if member workspace db.workspaces
    then elim (lookup workspace db.runtime) [
      | some row ↦ ok db
      | none ↦ ok (record db {
        runtime = insert workspace (record { active_scans = 0; updated_at = now }) db.runtime;
      })
    ]
    else err lookup_error

unfoldable pub set_active : ℕ → ℕ → WorkspaceRuntimeRecord → WorkspaceRuntimeRecord
set_active n now row = record { active_scans = n; updated_at = now }

-- `UPDATE ... SET active_scans = active_scans + 1 WHERE active_scans < limit`
unfoldable pub take_slot : ℕ → ℕ → ℕ → Db → Db × Bool
unfolding set_active
take_slot workspace limit now db = elim (lookup workspace db.runtime) [
  | none ↦ (db, false)
  | some row ↦
      if ltb row.active_scans limit
      then (
        record db { runtime = modify workspace (set_active (row.active_scans + 1) now) db.runtime },
        true,
      )
      else (db, false)
]

unfoldable pub acquire_scan_slot : ℕ → ℕ → ℕ → Db → Db × Result Bool
acquire_scan_slot workspace limit now db =
    if ltb limit 1
    then (db, err value_error)
    else elim (ensure_workspace_runtime workspace now db) [
      | err e ↦ (db, err e)
      | ok ensured ↦
          let (taken, success) = take_slot workspace limit now ensured in (taken, ok success)
    ]

-- `UPDATE ... SET active_scans = active_scans - 1 WHERE active_scans > 0`
unfoldable pub give_slot : ℕ → ℕ → Db → Db
unfolding set_active
give_slot workspace now db = elim (lookup workspace db.runtime) [
  | none ↦ db
  | some row ↦
      if ltb 0 row.active_scans
      then record db {
        runtime = modify workspace (set_active (row.active_scans - 1) now) db.runtime;
      }
      else db
]

unfoldable pub release_scan_slot : ℕ → ℕ → Db → Db × Result (Unit {0})
release_scan_slot workspace now db = elim (ensure_workspace_runtime workspace now db) [
  | err e ↦ (db, err e)
  | ok ensured ↦ (give_slot workspace now ensured, ok tt)
]
