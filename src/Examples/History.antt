-- ===== src/Examples/History.antt =====
-- A sweep of src/cryptohawk/storage/retention.py over an old job that an active state needs.
use crypto_hawk.Prelude.{true, none, some, [], ◌∷◌, ◌≡◌, refl, lookup, ok, has_key}
use crypto_hawk.Store.{ScanJobRecord, ScanKind, succeeded}
use crypto_hawk.Examples.Scans.{gone_soon, first_snapshot}
use crypto_hawk.Retention.{
  History, WorkspaceRetentionPolicyRecord, prune_workspace_history, sweep, sweep_result, any_of,
  any_row, is_due,
}
use crypto_hawk.Retention.Kept.{Keeps}
use crypto_hawk.Retention.Needed.{is_needed, prune_workspace_history-Keeps, is_current}
use crypto_hawk.Retention.Linked.{
  is_linked, prune_workspace_history-is_linked, prune_workspace_history-not_due,
}

abbrev weekly : WorkspaceRetentionPolicyRecord
weekly = record {
  enabled = true;
  evidence_retention_days = 7;
  audit_retention_days = 7;
  sweep_interval_hours = 24;
  last_run_at = none;
  updated_by = none;
  updated_at = 0;
}

abbrev old_job : ScanJobRecord
old_job = record {
  workspace_id = 1;
  asset_id = 5;
  kind = ScanKind.source;
  status = succeeded;
  requested_at = 0;
  started_at = some 0;
  finished_at = some 100;
  findings_count = 1;
  error_message = none;
}

abbrev history : History
history = record {
  policies = (1, weekly) ∷ [];
  states = gone_soon ∷ [];
  occurrences = [];
  events = [];
  snapshots = (7, first_snapshot) ∷ [];
  executions = [];
  runs = [];
  scopes = [];
  findings = [];
  jobs = (6, old_job) ∷ (7, old_job) ∷ [];
  queue = [];
  items = [];
  audit = record { workspace_id = some 1; created_at = 5 } ∷ [];
}

prune_workspace_history-Keeps_example : Keeps 7 history (sweep 1 weekly 1000000000000 history)
unfolding prune_workspace_history lookup is_due is_needed is_current any_of
prune_workspace_history-Keeps_example =
    prune_workspace_history-Keeps (1 ∷ []) 1 1000000000000 true history
      (sweep 1 weekly 1000000000000 history) (some (sweep_result 1 weekly 1000000000000 history)) 7
      refl refl

-- A recent finding has the old job 6.
abbrev scoped : History
scoped = record history {
  scopes = (3, record { workspace_id = 1; scan_job_id = 6 }) ∷ [];
  findings = (3, record { discovered_at = 999999999999 }) ∷ [];
}

prune_workspace_history-is_linked_example : is_linked 6 (sweep 1 weekly 1000000000000 scoped) ≡ true
unfolding prune_workspace_history lookup is_due is_linked any_of any_row has_key
prune_workspace_history-is_linked_example =
    prune_workspace_history-is_linked (1 ∷ []) 1 1000000000000 true scoped
      (sweep 1 weekly 1000000000000 scoped) (some (sweep_result 1 weekly 1000000000000 scoped)) 6
      refl refl

prune_workspace_history-not_due_example :
    prune_workspace_history (1 ∷ []) 1 1000000000001 true (sweep 1 weekly 1000000000000 history)
    ≡ ok (sweep 1 weekly 1000000000000 history, none)
unfolding prune_workspace_history lookup is_due
prune_workspace_history-not_due_example =
    prune_workspace_history-not_due (1 ∷ []) 1 1000000000000 1000000000001 true history
      (sweep 1 weekly 1000000000000 history) weekly (sweep_result 1 weekly 1000000000000 history)
      refl refl refl
