-- ===== src/Quotas/Capacity.antt =====
-- What the slot operations do to the number of active scans.
use crypto_hawk.Prelude.{
  ℕ, ◌+◌, ◌-◌, ◌≤◌, ◌≡◌, Bool, true, false, ◌&&◌, Option, none, some, Result, ok, err, arith, Table,
  lookup, modify, one_if, lookup-modify_self, lookup-modify_ne, lookup-insert, ◌==◌, ltb,
  if◌then◌else◌, Bool-cases, inl, inr, Option-cases, Result-cases,
}
use crypto_hawk.Store.{Db, WorkspaceRuntimeRecord}
use crypto_hawk.Quotas.Slots.{
  ensure_workspace_runtime, set_active, take_slot, acquire_scan_slot, give_slot, release_scan_slot,
}

abbrev pub active_of : Option WorkspaceRuntimeRecord → ℕ
active_of none = 0
active_of (some row) = row.active_scans

-- The active scans that the tables record for a workspace.
abbrev pub active : ℕ → Db → ℕ
active v db = active_of (lookup v db.runtime)

abbrev pub granted : Result Bool → Bool
granted (ok b) = b
granted (err e) = false

abbrev pub is_ok {ℓ} : {A : Type ℓ} → Result A → Bool
is_ok (ok a) = true
is_ok (err e) = false

-- Only the runtime table differs.
pub record SameJobs (s t : Db) : Type 0 where
  pub jobs : t.jobs ≡ s.jobs
  pub queue : t.queue ≡ s.queue
  pub workspaces : t.workspaces ≡ s.workspaces
  pub assets : t.assets ≡ s.assets

active-ensure :
    (v w now : ℕ) (db t : Db) → ensure_workspace_runtime w now db ≡ ok t → active v t ≡ active v db
unfolding ensure_workspace_runtime
active-ensure v w now db t h =
    ground (arith, lookup-insert v w (record { active_scans = 0; updated_at = now }) db.runtime)

active-set :
    (v w n now : ℕ) (d : Table WorkspaceRuntimeRecord) (row : WorkspaceRuntimeRecord)
    → lookup w d ≡ some row
    → active_of (lookup v (modify w (set_active n now) d))
      ≡ (if v == w then n else active_of (lookup v d))
unfolding set_active
active-set v w n now d row h = ground (
  arith,
  lookup-modify_self w (set_active n now) d row,
  lookup-modify_ne v w (set_active n now) d,
)

active-take :
    (v w limit now : ℕ) (db : Db)
    → active v (take_slot w limit now db).0
      ≡ active v db + one_if ((v == w) && (take_slot w limit now db).1)
unfolding take_slot
active-take v w limit now db = elim (Option-cases (lookup w db.runtime)) [
  | inl e ↦ rw (e, take_slot) (ground arith)
  | inr (row, e) ↦
      rw (e, take_slot) (ground (arith, active-set v w (row.active_scans + 1) now db.runtime row))
]

-- A slot that is granted counts one scan more in its workspace; all other counts stay.
pub active-acquire :
    (v w limit now : ℕ) (db : Db)
    → active v (acquire_scan_slot w limit now db).0
      ≡ active v db + one_if ((v == w) && granted (acquire_scan_slot w limit now db).1)
unfolding acquire_scan_slot
active-acquire v w limit now db = elim (Bool-cases (ltb limit 1)) [
  | inl e ↦ rw (e, acquire_scan_slot) (ground arith)
  | inr e ↦ elim (Result-cases (ensure_workspace_runtime w now db)) [
    | inl (t, h) ↦
        rw (e, h, acquire_scan_slot)
          (ground (arith, active-ensure v w now db t h, active-take v w limit now t))
    | inr (x, h) ↦ rw (e, h, acquire_scan_slot) (ground arith)
  ]
]

active-give :
    (v w now : ℕ) (db : Db) → active v (give_slot w now db) ≡ active v db - one_if (v == w)
unfolding give_slot
active-give v w now db = elim (Option-cases (lookup w db.runtime)) [
  | inl e ↦ rw (e, give_slot) (ground arith)
  | inr (row, e) ↦
      rw (e, give_slot) (ground (arith, active-set v w (row.active_scans - 1) now db.runtime row))
]

-- A slot that is given back counts one scan less in its workspace, and never less than none.
pub active-release :
    (v w now : ℕ) (db : Db)
    → active v (release_scan_slot w now db).0
      ≡ active v db - one_if ((v == w) && is_ok (release_scan_slot w now db).1)
unfolding release_scan_slot
active-release v w now db = elim (Result-cases (ensure_workspace_runtime w now db)) [
  | inl (t, h) ↦
      rw (h, release_scan_slot)
        (ground (arith, active-ensure v w now db t h, active-give v w now t))
  | inr (x, h) ↦ rw (h, release_scan_slot) (ground arith)
]

take-le_limit :
    (w limit now : ℕ) (db : Db)
    → (take_slot w limit now db).1 ≡ true
    → active w (take_slot w limit now db).0 ≤ limit
unfolding take_slot
take-le_limit w limit now db = elim (Option-cases (lookup w db.runtime)) [
  | inl e ↦ rw (e, take_slot) (λ h. cc)
  | inr (row, e) ↦
      rw (e, take_slot)
        (λ h. ground (arith, active-set w w (row.active_scans + 1) now db.runtime row))
]

-- A slot is granted only below the limit.
pub acquire-le_limit :
    (w limit now : ℕ) (db : Db)
    → granted (acquire_scan_slot w limit now db).1 ≡ true
    → active w (acquire_scan_slot w limit now db).0 ≤ limit
unfolding acquire_scan_slot
acquire-le_limit w limit now db = elim (Bool-cases (ltb limit 1)) [
  | inl e ↦ rw (e, acquire_scan_slot) (λ h. cc)
  | inr e ↦ elim (Result-cases (ensure_workspace_runtime w now db)) [
    | inl (t, h) ↦ rw (e, h, acquire_scan_slot) (take-le_limit w limit now t)
    | inr (x, h) ↦ rw (e, h, acquire_scan_slot) (λ g. cc)
  ]
]

ensure-SameJobs : (w now : ℕ) (db t : Db) → ensure_workspace_runtime w now db ≡ ok t → SameJobs db t
unfolding ensure_workspace_runtime
ensure-SameJobs w now db t h = ground arith

pub acquire-SameJobs :
    (w limit now : ℕ) (db : Db) → SameJobs db (acquire_scan_slot w limit now db).0
unfolding acquire_scan_slot take_slot ensure_workspace_runtime
acquire-SameJobs w limit now db = ground arith

pub release-SameJobs : (w now : ℕ) (db : Db) → SameJobs db (release_scan_slot w now db).0
unfolding release_scan_slot give_slot ensure_workspace_runtime
release-SameJobs w now db = ground arith
