-- ===== src/Retention/Protected.antt =====
-- The jobs whose evidence `prune_workspace_history` of src/cryptohawk/storage/retention.py keeps.
use crypto_hawk.Prelude.{
  ℕ, max, Bool, true, false, ◌&&◌, Option, none, some, List, [], ◌∷◌, Table, ◌==◌, if◌then◌else◌,
}
use crypto_hawk.Continuous.{add_sorted}
use crypto_hawk.Continuous.Records.{ScanSnapshotRecord, ObservationStateRecord}
use crypto_hawk.Remediation.{
  MigrationItemRecord, RemediationStatus, open_status, planned, in_progress, blocked,
  ready_for_verification, verified, accepted_risk,
}
use crypto_hawk.Retention.Tables.{History, RepositoryScanRunRecord}

-- `_NONTERMINAL_REMEDIATION`
unfoldable pub is_nonterminal : RemediationStatus → Bool
is_nonterminal open_status = true
is_nonterminal planned = true
is_nonterminal in_progress = true
is_nonterminal blocked = true
is_nonterminal ready_for_verification = true
is_nonterminal verified = false
is_nonterminal accepted_risk = false

-- The jobs that the active states were last seen by.
unfoldable pub protect_active : ℕ → List ObservationStateRecord → List ℕ → List ℕ
protect_active workspace [] jobs = jobs
protect_active workspace (s ∷ rest) jobs =
    let others = protect_active workspace rest jobs in
    if (s.workspace_id == workspace) && s.active then add_sorted s.last_job_id others else others

-- `max`, of what a group has
abbrev pub later : ℕ → Option ℕ → Option ℕ
later t none = some t
later t (some u) = some (max t u)

abbrev pub is_time : ℕ → Option ℕ → Bool
is_time t none = false
is_time t (some u) = t == u

-- The rows with a workspace, an asset and a time: the snapshots, or the repository runs.
module _ {V : Type 0} (workspace_of asset_of time_of : V → ℕ) where
  -- `latest_snapshot_times` and `latest_repo_times`, at one asset
  unfoldable pub latest_time : ℕ → ℕ → Table V → Option ℕ
  latest_time workspace asset [] = none
  latest_time workspace asset ((job, s) ∷ rest) =
      let others = latest_time workspace asset rest in
      if (workspace_of s == workspace) && (asset_of s == asset)
      then later (time_of s) others
      else others

  -- The jobs of the rows that join with the latest times of `all`.
  unfoldable pub protect_latest : ℕ → Table V → Table V → List ℕ → List ℕ
  protect_latest workspace all [] jobs = jobs
  protect_latest workspace all ((job, s) ∷ rest) jobs =
      let others = protect_latest workspace all rest jobs in
      if is_time (time_of s) (latest_time workspace (asset_of s) all)
      then add_sorted job others
      else others

abbrev pub add_given : Option ℕ → List ℕ → List ℕ
add_given none jobs = jobs
add_given (some job) jobs = add_sorted job jobs

-- The jobs that unfinished remediation rests on.
unfoldable pub protect_items : ℕ → Table MigrationItemRecord → List ℕ → List ℕ
protect_items workspace [] jobs = jobs
protect_items workspace ((id, item) ∷ rest) jobs =
    let others = protect_items workspace rest jobs in
    if (item.workspace_id == workspace) && is_nonterminal item.status
    then add_given item.verification_job_id (add_sorted item.source_scan_job_id others)
    else others

unfoldable pub protect_snapshots : ℕ → Table ScanSnapshotRecord → List ℕ → List ℕ
protect_snapshots workspace snapshots jobs =
    protect_latest (λ s. s.workspace_id) (λ s. s.asset_id) (λ s. s.completed_at) workspace snapshots
      snapshots jobs

unfoldable pub protect_runs : ℕ → Table RepositoryScanRunRecord → List ℕ → List ℕ
protect_runs workspace runs jobs =
    protect_latest (λ r. r.workspace_id) (λ r. r.asset_id) (λ r. r.collected_at) workspace runs runs
      jobs

unfoldable pub protected_jobs : ℕ → History → List ℕ
protected_jobs workspace h = protect_items workspace h.items (
    protect_runs workspace h.runs
      (protect_snapshots workspace h.snapshots (protect_active workspace h.states [])))
