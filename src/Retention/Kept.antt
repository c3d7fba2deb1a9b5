-- ===== src/Retention/Kept.antt =====
-- The rows that a sweep of src/cryptohawk/storage/retention.py leaves, of the jobs that it protects.
use crypto_hawk.Store.{ScanJobRecord}
use crypto_hawk.Prelude.{
  ℕ, Bool, true, false, not, ◌||◌, List, [], ◌∷◌, ◌≡◌, refl, arith, Table, lookup, member, ◌==◌,
  if◌then◌else◌, Bool-cases, inl, inr,
}
use crypto_hawk.Retention.Tables.{
  History, WorkspaceRetentionPolicyRecord, remove, remove_rows, ids_where,
}
use crypto_hawk.Retention.Protected.{protected_jobs}
use crypto_hawk.Retention.Sweep.{
  remove_evidence, remove_findings, remove_jobs, remove_audit, is_old_job, sweep, days_before,
}

module _ {ℓ} {V : Type ℓ} where
  -- `SELECT ... WHERE criteria`
  unfoldable pub rows_where : (V → Bool) → List V → List V
  rows_where criteria [] = []
  rows_where criteria (row ∷ rows) =
      let rest = rows_where criteria rows in if criteria row then row ∷ rest else rest

module _ {V : Type 0} where
  lookup-remove :
      (j : ℕ) (criteria : ℕ → V → Bool) (d : Table V)
      → ((v : V) → criteria j v ≡ false)
      → lookup j (remove criteria d) ≡ lookup j d
  unfolding lookup remove
  lookup-remove j criteria [] keep = refl
  lookup-remove j criteria ((i, v) ∷ d) keep = elim (Bool-cases (j == i)) [
    | inr other ↦ ground (arith, other, lookup-remove j criteria d keep)
    | inl same ↦
        (let eq : j ≡ i = ground (arith, same) in
          let kept : criteria i v ≡ false = rw (← eq) (keep v) in ground (arith, same, kept))
  ]

  pub member-ids_where :
      (j : ℕ) (criteria : ℕ → V → Bool) (d : Table V)
      → ((v : V) → criteria j v ≡ false)
      → member j (ids_where criteria d) ≡ false
  unfolding ids_where
  member-ids_where j criteria [] keep = refl
  member-ids_where j criteria ((i, v) ∷ d) keep = elim (Bool-cases (j == i)) [
    | inr other ↦ ground (arith, other, member-ids_where j criteria d keep)
    | inl same ↦
        (let eq : j ≡ i = ground (arith, same) in
          let kept : criteria i v ≡ false = rw (← eq) (keep v) in
          ground (arith, kept, member-ids_where j criteria d keep))
  ]

  rows_where-remove_rows :
      (test criteria : V → Bool) (rows : List V)
      → ((v : V) → (not (test v) || not (criteria v)) ≡ true)
      → rows_where test (remove_rows criteria rows) ≡ rows_where test rows
  unfolding rows_where remove_rows
  rows_where-remove_rows test criteria [] keep = refl
  rows_where-remove_rows test criteria (v ∷ rows) keep =
      ground (arith, keep v, rows_where-remove_rows test criteria rows keep)

-- All that is stored of the job, of its queue row and of its evidence is as before.
pub record Keeps (j : ℕ) (before after : History) : Type 0 where
  pub same_job : lookup j after.jobs ≡ lookup j before.jobs
  pub same_queue : lookup j after.queue ≡ lookup j before.queue
  pub same_snapshot : lookup j after.snapshots ≡ lookup j before.snapshots
  pub same_execution : lookup j after.executions ≡ lookup j before.executions
  pub same_run : lookup j after.runs ≡ lookup j before.runs
  pub same_occurrences :
      rows_where (λ o. o.job_id == j) after.occurrences
      ≡ rows_where (λ o. o.job_id == j) before.occurrences
  pub same_events :
      rows_where (λ e. e.scan_job_id == j) after.events
      ≡ rows_where (λ e. e.scan_job_id == j) before.events

member_same :
    (j k : ℕ) (jobs : List ℕ) → member j jobs ≡ true → (not (k == j) || member k jobs) ≡ true
member_same j k jobs m = elim (Bool-cases (k == j)) [
  | inr other ↦ ground (arith, other)
  | inl same ↦
      (let eq : j ≡ k = ground (arith, same) in
        let here : member k jobs ≡ true = rw (← eq) m in ground (arith, here))
]

remove_evidence-keeps :
    (workspace cutoff j : ℕ) (jobs : List ℕ) (h : History)
    → member j jobs ≡ true
    → (lookup j (remove_evidence workspace cutoff jobs h).snapshots ≡ lookup j h.snapshots)
      × (lookup j (remove_evidence workspace cutoff jobs h).executions ≡ lookup j h.executions)
      × (lookup j (remove_evidence workspace cutoff jobs h).runs ≡ lookup j h.runs)
      × (rows_where (λ o. o.job_id == j) (remove_evidence workspace cutoff jobs h).occurrences
          ≡ rows_where (λ o. o.job_id == j) h.occurrences)
      × (rows_where (λ e. e.scan_job_id == j) (remove_evidence workspace cutoff jobs h).events
          ≡ rows_where (λ e. e.scan_job_id == j) h.events)
unfolding remove_evidence
remove_evidence-keeps workspace cutoff j jobs h m = (
  lookup-remove j _ h.snapshots (λ v. ground (arith, m)),
  lookup-remove j _ h.executions (λ v. ground (arith, m)),
  lookup-remove j _ h.runs (λ v. ground (arith, m)),
  rows_where-remove_rows (λ o. o.job_id == j) _ h.occurrences
      (λ v. ground (arith, member_same j v.job_id jobs m)),
  rows_where-remove_rows (λ e. e.scan_job_id == j) _ h.events
      (λ v. ground (arith, member_same j v.scan_job_id jobs m)),
)

is_old_job-protected :
    (workspace cutoff j : ℕ) (jobs : List ℕ) (h : History) (job : ScanJobRecord)
    → member j jobs ≡ true
    → is_old_job workspace cutoff jobs h j job ≡ false
unfolding is_old_job
is_old_job-protected workspace cutoff j jobs h job m = ground arith

remove_jobs-keeps :
    (workspace cutoff j : ℕ) (jobs : List ℕ) (h : History)
    → member j jobs ≡ true
    → (lookup j (remove_jobs workspace cutoff jobs h).jobs ≡ lookup j h.jobs)
      × (lookup j (remove_jobs workspace cutoff jobs h).queue ≡ lookup j h.queue)
unfolding remove_jobs
remove_jobs-keeps workspace cutoff j jobs h m =
    let absent =
      member-ids_where j (is_old_job workspace cutoff jobs h) h.jobs
        (λ v. is_old_job-protected workspace cutoff j jobs h v m) in
    (lookup-remove j _ h.jobs (λ v. absent), lookup-remove j _ h.queue (λ v. absent))

pub sweep-Keeps :
    (workspace : ℕ) (p : WorkspaceRetentionPolicyRecord) (now : ℕ) (h : History) (j : ℕ)
    → member j (protected_jobs workspace h) ≡ true
    → Keeps j h (sweep workspace p now h)
unfolding sweep remove_audit remove_findings remove_jobs remove_evidence
sweep-Keeps workspace p now h j m =
    let cutoff = days_before now p.evidence_retention_days in
    let jobs = protected_jobs workspace h in
    let evidence = remove_evidence workspace cutoff jobs h in
    let rest = remove_findings workspace cutoff evidence in
    let kept = remove_evidence-keeps workspace cutoff j jobs h m in
    let both = remove_jobs-keeps workspace cutoff j jobs rest m in
    record {
      same_job = both.0;
      same_queue = both.1;
      same_snapshot = kept.0;
      same_execution = kept.1;
      same_run = kept.2;
      same_occurrences = kept.3;
      same_events = kept.4;
    }
