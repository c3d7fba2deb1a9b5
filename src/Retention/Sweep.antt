-- ===== src/Retention/Sweep.antt =====
-- `prune_workspace_history` and `_is_due` of src/cryptohawk/storage/retention.py.
use crypto_hawk.Prelude.{
  ℕ, ◌+◌, ◌*◌, ◌-◌, Bool, true, false, not, ◌&&◌, Option, none, some, List, Result, ok, err,
  value_error, lookup_error, lookup, modify, member, length, ltb, leb, ◌==◌, if◌then◌else◌,
}
use crypto_hawk.Store.{
  ScanJobRecord, ScanStatus, queued, running, succeeded, failed, canceled, seconds,
}
use crypto_hawk.Retention.Tables.{
  History, WorkspaceRetentionPolicyRecord, remove, remove_rows, ids_where, any_row, any_of,
}
use crypto_hawk.Retention.Protected.{protected_jobs}

-- `_TERMINAL_SCAN_STATUSES`
unfoldable pub is_terminal : ScanStatus → Bool
is_terminal queued = false
is_terminal running = false
is_terminal succeeded = true
is_terminal failed = true
is_terminal canceled = true

unfoldable pub is_due : WorkspaceRetentionPolicyRecord → ℕ → Bool
is_due p now = p.enabled && elim p.last_run_at [
  | none ↦ true
  | some last_run ↦ leb (last_run + seconds (p.sweep_interval_hours * 3600)) now
]

-- `current - timedelta(days=n)`; nothing is older than the time 0.
unfoldable pub days_before : ℕ → ℕ → ℕ
days_before now n = now - seconds (n * 86400)

abbrev pub is_given : ℕ → Option ℕ → Bool
is_given x none = false
is_given x (some y) = x == y

abbrev pub ended_before : ℕ → Option ℕ → Bool
ended_before cutoff none = false
ended_before cutoff (some t) = ltb t cutoff

-- The first five deletions: of evidence by its age.
unfoldable pub remove_evidence : ℕ → ℕ → List ℕ → History → History
remove_evidence workspace cutoff jobs h = record h {
  occurrences =
      remove_rows
        (λ o.
          (o.workspace_id == workspace) && (ltb o.observed_at cutoff && not (member o.job_id jobs)))
        h.occurrences;
  events =
      remove_rows
        (λ e.
          (e.workspace_id == workspace)
          && (ltb e.occurred_at cutoff && not (member e.scan_job_id jobs)))
        h.events;
  snapshots =
      remove
        (λ job s.
          (s.workspace_id == workspace) && (ltb s.completed_at cutoff && not (member job jobs)))
        h.snapshots;
  executions =
      remove
        (λ job x.
          (x.workspace_id == workspace) && (ltb x.scheduled_for cutoff && not (member job jobs)))
        h.executions;
  runs =
      remove
        (λ job r.
          (r.workspace_id == workspace) && (ltb r.collected_at cutoff && not (member job jobs)))
        h.runs;
}

-- `stale_finding_ids`: the findings of the workspace that nothing refers to.
unfoldable pub is_stale_finding : ℕ → ℕ → History → ℕ → Bool
is_stale_finding workspace cutoff h id =
    any_row (λ finding scope. (finding == id) && (scope.workspace_id == workspace)) h.scopes
    && (not (any_of (λ o. o.finding_id == id) h.occurrences)
        && not (any_row (λ i item. item.source_finding_id == id) h.items))

unfoldable pub remove_findings : ℕ → ℕ → History → History
remove_findings workspace cutoff h =
    let stale =
      ids_where (λ id f. ltb f.discovered_at cutoff && is_stale_finding workspace cutoff h id)
        h.findings in
    record h {
      scopes = remove (λ id scope. member id stale) h.scopes;
      findings = remove (λ id f. member id stale) h.findings;
    }

-- `terminal_job_ids`: the old jobs of the workspace that nothing refers to.
unfoldable pub is_old_job : ℕ → ℕ → List ℕ → History → ℕ → ScanJobRecord → Bool
is_old_job workspace cutoff jobs h id job =
    (job.workspace_id == workspace)
    && (is_terminal job.status
        && (ended_before cutoff job.finished_at
            && (not (member id jobs)
                && (not (any_row (λ finding scope. scope.scan_job_id == id) h.scopes)
                    && (not (any_row (λ i item. item.source_scan_job_id == id) h.items)
                        && not
                            (any_row (λ i item. is_given id item.verification_job_id) h.items))))))

unfoldable pub remove_jobs : ℕ → ℕ → List ℕ → History → History
remove_jobs workspace cutoff jobs h =
    let old = ids_where (is_old_job workspace cutoff jobs h) h.jobs in
    record h {
      queue = remove (λ id q. member id old) h.queue;
      jobs = remove (λ id job. member id old) h.jobs;
    }

unfoldable pub remove_audit : ℕ → ℕ → History → History
remove_audit workspace cutoff h = record h {
  audit = remove_rows (λ e. is_given workspace e.workspace_id && ltb e.created_at cutoff) h.audit;
}

-- The deletions of a sweep, and the time of the sweep.
unfoldable pub sweep : ℕ → WorkspaceRetentionPolicyRecord → ℕ → History → History
sweep workspace p now h =
    let cutoff = days_before now p.evidence_retention_days in
    let jobs = protected_jobs workspace h in
    let left = remove_audit workspace (days_before now p.audit_retention_days) (
      remove_jobs workspace cutoff jobs
        (remove_findings workspace cutoff (remove_evidence workspace cutoff jobs h))) in
    record left {
      policies = modify workspace (λ q. record q { last_run_at = some now }) h.policies;
    }

-- The result of a sweep; the counts of deleted rows are not kept.
pub record RetentionSweepResult : Type 0 where
  pub workspace_id : ℕ
  pub evidence_cutoff : ℕ
  pub audit_cutoff : ℕ
  pub protected_evidence_jobs : ℕ
  pub ran_at : ℕ

unfoldable pub sweep_result :
    ℕ → WorkspaceRetentionPolicyRecord → ℕ → History → RetentionSweepResult
sweep_result workspace p now h = record {
  workspace_id = workspace;
  evidence_cutoff = days_before now p.evidence_retention_days;
  audit_cutoff = days_before now p.audit_retention_days;
  protected_evidence_jobs = length (protected_jobs workspace h);
  ran_at = now;
}

-- `workspaces` are those of the inventory.
unfoldable pub prune_workspace_history :
    List ℕ → ℕ → ℕ → Bool → History → Result (History × Option RetentionSweepResult)
prune_workspace_history workspaces workspace now only_if_due h =
    elim (lookup workspace h.policies) [
      | none ↦
          if only_if_due
          then ok (h, none)
          else if member workspace workspaces
          then err value_error
          else err lookup_error
      | some p ↦
          if not p.enabled
          then err value_error
          else if only_if_due && not (is_due p now)
          then ok (h, none)
          else ok (sweep workspace p now h, some (sweep_result workspace p now h))
    ]
