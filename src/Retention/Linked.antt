-- ===== src/Retention/Linked.antt =====
-- The references between the tables through a sweep of src/cryptohawk/storage/retention.py, and the
-- time until the next one.
use crypto_hawk.Prelude.{
  ℕ, ◌+◌, ◌*◌, Bool, true, false, not, ◌&&◌, ◌||◌, Option, none, some, List, [], ◌∷◌, ok, ◌≡◌, refl,
  arith, Table, lookup, modify, lookup-modify_self, member, has_key, ltb, ◌==◌, Bool-cases, inl,
  inr,
}
use crypto_hawk.Store.{seconds}
use crypto_hawk.Retention.Tables.{
  History, WorkspaceRetentionPolicyRecord, remove, remove_rows, ids_where, any_row, any_of,
}
use crypto_hawk.Retention.Protected.{protected_jobs}
use crypto_hawk.Retention.Sweep.{
  prune_workspace_history, sweep, is_due, RetentionSweepResult, days_before, remove_evidence,
  remove_findings, remove_jobs, remove_audit, is_stale_finding, is_old_job, is_given,
}
use crypto_hawk.Retention.Kept.{member-ids_where}
use crypto_hawk.Retention.Needed.{prune_workspace_history-cases}

module _ {V : Type 0} where
  has_key-remove :
      (j : ℕ) (xs : List ℕ) (d : Table V)
      → has_key j (remove (λ id v. member id xs) d) ≡ (not (member j xs) && has_key j d)
  unfolding has_key remove
  has_key-remove j xs [] = ground arith
  has_key-remove j xs ((i, v) ∷ d) = elim (Bool-cases (j == i)) [
    | inr other ↦ ground (arith, other, has_key-remove j xs d)
    | inl same ↦
        (let eq : j ≡ i = ground (arith, same) in rw eq (ground (arith, has_key-remove i xs d)))
  ]

  any_row-remove :
      (test criteria : ℕ → V → Bool) (d : Table V)
      → (not (any_row test (remove criteria d)) || any_row test d) ≡ true
  unfolding any_row remove
  any_row-remove test criteria [] = refl
  any_row-remove test criteria ((i, v) ∷ d) = ground (arith, any_row-remove test criteria d)

  any_of-remove_rows :
      (test criteria : V → Bool) (rows : List V)
      → (not (any_of test (remove_rows criteria rows)) || any_of test rows) ≡ true
  unfolding any_of remove_rows
  any_of-remove_rows test criteria [] = refl
  any_of-remove_rows test criteria (v ∷ rows) =
      ground (arith, any_of-remove_rows test criteria rows)

-- An occurrence, an item or a scope has its finding; an item has the job that it was opened from and
-- the one that verified it, a scope its job and a row of the queue its job.
unfoldable pub is_linked : ℕ → History → Bool
is_linked id h =
    (not (any_of (λ o. o.finding_id == id) h.occurrences) || has_key id h.findings)
    && ((not (any_row (λ i item. item.source_finding_id == id) h.items) || has_key id h.findings)
        && ((not (any_row (λ i item. item.source_scan_job_id == id) h.items) || has_key id h.jobs)
            && ((not (any_row (λ i item. is_given id item.verification_job_id) h.items)
                  || has_key id h.jobs)
                && ((not (any_row (λ i scope. scope.scan_job_id == id) h.scopes)
                      || has_key id h.jobs)
                    && ((not (has_key id h.scopes) || has_key id h.findings)
                        && (not (has_key id h.queue) || has_key id h.jobs))))))

remove_evidence-is_linked :
    (w cutoff : ℕ) (jobs : List ℕ) (h : History) (id : ℕ)
    → is_linked id h ≡ true
    → is_linked id (remove_evidence w cutoff jobs h) ≡ true
unfolding is_linked remove_evidence
remove_evidence-is_linked w cutoff jobs h id l = ground (
  arith,
  l,
  any_of-remove_rows (λ o. o.finding_id == id)
      (λ o. (o.workspace_id == w) && (ltb o.observed_at cutoff && not (member o.job_id jobs)))
      h.occurrences,
)

stale_is_free :
    (w cutoff : ℕ) (h : History) (id : ℕ)
    → (not (
          any_of (λ o. o.finding_id == id) h.occurrences
          || any_row (λ i item. item.source_finding_id == id) h.items)
        || not (
            member id (
              ids_where
                (λ id f. ltb f.discovered_at cutoff && is_stale_finding w cutoff h id)
                h.findings)))
      ≡ true
unfolding is_stale_finding
stale_is_free w cutoff h id =
    let used =
      any_of (λ o. o.finding_id == id) h.occurrences
      || any_row (λ i item. item.source_finding_id == id) h.items in
    elim (Bool-cases used) [
      | inr free ↦ ground (arith, free)
      | inl held ↦
          (let absent =
              member-ids_where id
                (λ id f. ltb f.discovered_at cutoff && is_stale_finding w cutoff h id) h.findings
                (λ v. ground (arith, held)) in
            ground (arith, absent))
    ]

remove_findings-is_linked :
    (w cutoff : ℕ) (h : History) (id : ℕ)
    → is_linked id h ≡ true
    → is_linked id (remove_findings w cutoff h) ≡ true
unfolding is_linked remove_findings
remove_findings-is_linked w cutoff h id l =
    let stale =
      ids_where (λ id f. ltb f.discovered_at cutoff && is_stale_finding w cutoff h id) h.findings in
    ground (
      arith,
      l,
      stale_is_free w cutoff h id,
      has_key-remove id stale h.findings,
      has_key-remove id stale h.scopes,
      any_row-remove (λ i scope. scope.scan_job_id == id) (λ id scope. member id stale) h.scopes,
    )

-- A scope or an item has the job.
abbrev is_used_job : ℕ → History → Bool
is_used_job id h =
    any_row (λ i scope. scope.scan_job_id == id) h.scopes
    || (any_row (λ i item. item.source_scan_job_id == id) h.items
        || any_row (λ i item. is_given id item.verification_job_id) h.items)

old_is_free :
    (w cutoff : ℕ) (jobs : List ℕ) (h : History) (id : ℕ)
    → (not (is_used_job id h) || not (member id (ids_where (is_old_job w cutoff jobs h) h.jobs)))
      ≡ true
unfolding is_old_job
old_is_free w cutoff jobs h id = elim (Bool-cases (is_used_job id h)) [
  | inr free ↦ ground (arith, free)
  | inl held ↦
      (let absent =
          member-ids_where id (is_old_job w cutoff jobs h) h.jobs (λ v. ground (arith, held)) in
        ground (arith, absent))
]

remove_jobs-is_linked :
    (w cutoff : ℕ) (jobs : List ℕ) (h : History) (id : ℕ)
    → is_linked id h ≡ true
    → is_linked id (remove_jobs w cutoff jobs h) ≡ true
unfolding is_linked remove_jobs
remove_jobs-is_linked w cutoff jobs h id l =
    let old = ids_where (is_old_job w cutoff jobs h) h.jobs in
    ground (
      arith,
      l,
      old_is_free w cutoff jobs h id,
      has_key-remove id old h.jobs,
      has_key-remove id old h.queue,
    )

-- A call of `prune_workspace_history` that returns leaves none of these references to an identifier
-- dangling that was not dangling before: of an occurrence, an item or a scope to its finding, of an
-- item to the job that it was opened from and to the job that verified it, of a scope to its job, and
-- of a row of the queue to its job.
pub prune_workspace_history-is_linked :
    (workspaces : List ℕ) (w now : ℕ) (only_if_due : Bool) (h after : History)
    (r : Option RetentionSweepResult) (id : ℕ)
    → prune_workspace_history workspaces w now only_if_due h ≡ ok (after, r)
    → is_linked id h ≡ true
    → is_linked id after ≡ true
unfolding sweep remove_audit is_linked
prune_workspace_history-is_linked workspaces w now only_if_due h after r id e l =
    elim (prune_workspace_history-cases workspaces w now only_if_due h after r e) [
      | inl same ↦ rw (← same) l
      | inr (p, found, done) ↦
          (let cutoff = days_before now p.evidence_retention_days in
            let jobs = protected_jobs w h in
            let evidence = remove_evidence w cutoff jobs h in
            rw (← done) (
              remove_jobs-is_linked w cutoff jobs (remove_findings w cutoff evidence) id (
                remove_findings-is_linked w cutoff evidence id
                  (remove_evidence-is_linked w cutoff jobs h id l))))
    ]

not_due :
    (p : WorkspaceRetentionPolicyRecord) (now again : ℕ)
    → ltb again (now + seconds (p.sweep_interval_hours * 3600)) ≡ true
    → is_due (record p { last_run_at = some now }) again ≡ false
unfolding is_due
not_due p now again h = ground arith

swept :
    (workspaces : List ℕ) (w now : ℕ) (only_if_due : Bool) (h after : History)
    (p : WorkspaceRetentionPolicyRecord) (r : RetentionSweepResult)
    → lookup w h.policies ≡ some p
    → prune_workspace_history workspaces w now only_if_due h ≡ ok (after, some r)
    → (p.enabled ≡ true)
      × (modify w (λ q. record q { last_run_at = some now }) h.policies ≡ after.policies)
unfolding prune_workspace_history sweep
swept workspaces w now only_if_due h after p r f e = ground (arith, f, e)

-- After a sweep of a workspace with the policy, a call for what is due, at a time before the interval
-- of the policy has passed, changes nothing and gives no result.
pub prune_workspace_history-not_due :
    (workspaces : List ℕ) (w now again : ℕ) (only_if_due : Bool) (h after : History)
    (p : WorkspaceRetentionPolicyRecord) (r : RetentionSweepResult)
    → lookup w h.policies ≡ some p
    → prune_workspace_history workspaces w now only_if_due h ≡ ok (after, some r)
    → ltb again (now + seconds (p.sweep_interval_hours * 3600)) ≡ true
    → prune_workspace_history workspaces w again true after ≡ ok (after, none)
unfolding prune_workspace_history
prune_workspace_history-not_due workspaces w now again only_if_due h after p r f e soon =
    let (enabled, table) = swept workspaces w now only_if_due h after p r f e in
    let touched : lookup w after.policies ≡ some (record p { last_run_at = some now }) =
      rw (← table)
        (lookup-modify_self w (λ q. record q { last_run_at = some now }) h.policies p f) in
    rw (touched, prune_workspace_history) (ground (arith, enabled, not_due p now again soon))
