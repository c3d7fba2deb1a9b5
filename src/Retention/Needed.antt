-- ===== src/Retention/Needed.antt =====
-- The jobs whose evidence a workspace still needs, and the sweeps of
-- src/cryptohawk/storage/retention.py.
use crypto_hawk.Prelude.{
  ℕ, Bool, true, false, not, ◌&&◌, ◌||◌, Option, none, some, List, [], ◌∷◌, ok, ◌≡◌, refl, arith,
  Table, lookup, member, ltb, leb, ◌==◌, Bool-cases, Option-cases, inl, inr, ◌⊎◌,
}
use crypto_hawk.Continuous.{add_sorted}
use crypto_hawk.Continuous.States.{member-add_sorted}
use crypto_hawk.Continuous.Records.{ObservationStateRecord}
use crypto_hawk.Remediation.{MigrationItemRecord}
use crypto_hawk.Retention.Tables.{History, WorkspaceRetentionPolicyRecord, any_row, any_of}
use crypto_hawk.Retention.Protected.{
  is_nonterminal, protect_active, is_time, latest_time, protect_latest, protect_items, add_given,
  protect_snapshots, protect_runs, protected_jobs,
}
use crypto_hawk.Retention.Sweep.{
  is_given, prune_workspace_history, sweep, is_due, RetentionSweepResult,
}
use crypto_hawk.Retention.Kept.{Keeps, sweep-Keeps}

-- An active state was last seen by the job.
unfoldable pub is_current : ℕ → ℕ → History → Bool
is_current workspace j h =
    any_of (λ s. (s.workspace_id == workspace) && (s.active && (s.last_job_id == j))) h.states

-- Unfinished remediation was opened from the job, or was verified by it.
unfoldable pub is_under_repair : ℕ → ℕ → History → Bool
is_under_repair workspace j h =
    any_row
      (λ id item.
        ((item.workspace_id == workspace) && is_nonterminal item.status)
        && ((item.source_scan_job_id == j) || is_given j item.verification_job_id))
      h.items

abbrev at_most : Option ℕ → ℕ → Bool
at_most none t = true
at_most (some u) t = leb u t

abbrev at_least : Option ℕ → ℕ → Bool
at_least none t = false
at_least (some u) t = leb t u

module _ {V : Type 0} (workspace_of asset_of time_of : V → ℕ) where
  -- No row of the workspace and the asset is later than the row of the job.
  unfoldable pub is_newest : ℕ → ℕ → Table V → Bool
  is_newest workspace j d =
      any_row
        (λ job s.
          (job == j)
          && ((workspace_of s == workspace)
              && not (
                  any_row
                    (λ k o.
                      (workspace_of o == workspace)
                      && ((asset_of o == asset_of s) && ltb (time_of s) (time_of o)))
                    d)))
        d

  latest_time-le :
      (w a t : ℕ) (d : Table V)
      → any_row (λ k o. (workspace_of o == w) && ((asset_of o == a) && ltb t (time_of o))) d ≡ false
      → at_most (latest_time workspace_of asset_of time_of w a d) t ≡ true
  unfolding any_row latest_time
  latest_time-le w a t [] h = refl
  latest_time-le w a t ((k, o) ∷ d) h = ground (arith, latest_time-le w a t d)

  latest_time-ge :
      (w a t : ℕ) (d : Table V)
      → any_row (λ k o. (workspace_of o == w) && ((asset_of o == a) && (time_of o == t))) d ≡ true
      → at_least (latest_time workspace_of asset_of time_of w a d) t ≡ true
  unfolding any_row latest_time
  latest_time-ge w a t [] h = ground arith
  latest_time-ge w a t ((k, o) ∷ d) h = ground (arith, latest_time-ge w a t d)

  member-protect_latest :
      (w j : ℕ) (all rows : Table V) (jobs : List ℕ)
      → member j (protect_latest workspace_of asset_of time_of w all rows jobs) ≡ (
          any_row
            (λ job s.
              (job == j)
              && is_time (time_of s) (latest_time workspace_of asset_of time_of w (asset_of s) all))
            rows
          || member j jobs)
  unfolding protect_latest any_row
  member-protect_latest w j all [] jobs = refl
  member-protect_latest w j all ((job, s) ∷ rows) jobs = ground (
    arith,
    member-protect_latest w j all rows jobs,
    member-add_sorted j job (protect_latest workspace_of asset_of time_of w all rows jobs),
  )

  any_row-witness :
      (criteria : ℕ → V → Bool) (d : Table V)
      → any_row criteria d ≡ true
      → (k : ℕ) × (v : V) × (criteria k v ≡ true)
        × ((other : ℕ → V → Bool) → other k v ≡ true → any_row other d ≡ true)
  unfolding any_row
  any_row-witness criteria [] h = ground arith
  any_row-witness criteria ((k, v) ∷ d) h = elim (Bool-cases (criteria k v)) [
    | inl here ↦ (k, v, here, (λ other e. ground (arith, e)))
    | inr not_here ↦
        (let (i, w, c, back) = any_row-witness criteria d (ground (arith, h, not_here)) in
          (i, w, c, (λ other e. ground (arith, back other e))))
  ]

  pub is_newest-protected :
      (w j : ℕ) (d : Table V) (jobs : List ℕ)
      → is_newest w j d ≡ true
      → member j (protect_latest workspace_of asset_of time_of w d d jobs) ≡ true
  unfolding is_newest
  is_newest-protected w j d jobs h =
      let (k, s, c, back) = any_row-witness _ d h in
      let upper = latest_time-le w (asset_of s) (time_of s) d (ground (arith, c)) in
      let lower = latest_time-ge w (asset_of s) (time_of s) d (back _ (ground (arith, c))) in
      let hit =
        back
          (λ job s.
            (job == j)
            && is_time (time_of s) (latest_time workspace_of asset_of time_of w (asset_of s) d))
          (ground (arith, c, upper, lower)) in
      ground (arith, hit, member-protect_latest w j d d jobs)

member-protect_active :
    (w j : ℕ) (states : List ObservationStateRecord) (jobs : List ℕ)
    → member j (protect_active w states jobs) ≡ (
        any_of (λ s. (s.workspace_id == w) && (s.active && (s.last_job_id == j))) states
        || member j jobs)
unfolding protect_active any_of
member-protect_active w j [] jobs = refl
member-protect_active w j (s ∷ states) jobs = ground (
  arith,
  member-protect_active w j states jobs,
  member-add_sorted j s.last_job_id (protect_active w states jobs),
)

member-add_given :
    (j : ℕ) (o : Option ℕ) (jobs : List ℕ)
    → member j (add_given o jobs) ≡ (is_given j o || member j jobs)
member-add_given j none jobs = refl
member-add_given j (some k) jobs = ground (arith, member-add_sorted j k jobs)

member-protect_items :
    (w j : ℕ) (items : Table MigrationItemRecord) (jobs : List ℕ)
    → member j (protect_items w items jobs) ≡ (
        any_row
          (λ id item.
            ((item.workspace_id == w) && is_nonterminal item.status)
            && ((item.source_scan_job_id == j) || is_given j item.verification_job_id))
          items
        || member j jobs)
unfolding protect_items any_row
member-protect_items w j [] jobs = refl
member-protect_items w j ((id, item) ∷ items) jobs =
    let others = protect_items w items jobs in
    ground (
      arith,
      member-protect_items w j items jobs,
      member-add_given j item.verification_job_id (add_sorted item.source_scan_job_id others),
      member-add_sorted j item.source_scan_job_id others,
    )

-- The evidence of the job is what the workspace stands on.
unfoldable pub is_needed : ℕ → ℕ → History → Bool
is_needed workspace j h =
    is_current workspace j h
    || (is_newest (λ s. s.workspace_id) (λ s. s.asset_id) (λ s. s.completed_at) workspace j
          h.snapshots
        || (is_newest (λ r. r.workspace_id) (λ r. r.asset_id) (λ r. r.collected_at) workspace j
              h.runs
            || is_under_repair workspace j h))

is_needed-protected :
    (w j : ℕ) (h : History) → is_needed w j h ≡ true → member j (protected_jobs w h) ≡ true
unfolding is_needed protected_jobs protect_snapshots protect_runs is_current is_under_repair
is_needed-protected w j h n =
    let active = protect_active w h.states [] in
    let snapshots = protect_snapshots w h.snapshots active in
    let runs = protect_runs w h.runs snapshots in
    ground (
      arith,
      n,
      member-protect_active w j h.states [],
      is_newest-protected (λ s. s.workspace_id) (λ s. s.asset_id) (λ s. s.completed_at) w j
          h.snapshots active,
      member-protect_latest (λ s. s.workspace_id) (λ s. s.asset_id) (λ s. s.completed_at) w j
          h.snapshots h.snapshots active,
      is_newest-protected (λ r. r.workspace_id) (λ r. r.asset_id) (λ r. r.collected_at) w j h.runs
          snapshots,
      member-protect_latest (λ r. r.workspace_id) (λ r. r.asset_id) (λ r. r.collected_at) w j h.runs
          h.runs snapshots,
      member-protect_items w j h.items runs,
    )

pub prune_workspace_history-cases :
    (workspaces : List ℕ) (w now : ℕ) (only_if_due : Bool) (h after : History)
    (r : Option RetentionSweepResult)
    → prune_workspace_history workspaces w now only_if_due h ≡ ok (after, r)
    → (h ≡ after)
      ⊎ ((p : WorkspaceRetentionPolicyRecord) × (lookup w h.policies ≡ some p)
          × (sweep w p now h ≡ after))
unfolding prune_workspace_history
prune_workspace_history-cases workspaces w now only_if_due h after r e =
    elim (Option-cases (lookup w h.policies)) [
      | inl missing ↦ inl (ground (arith, missing, e))
      | inr (p, found) ↦ elim (Bool-cases (only_if_due && not (is_due p now))) [
        | inl early ↦ inl (ground (arith, found, early, e))
        | inr due ↦ inr (p, found, ground (arith, found, due, e))
      ]
    ]

Keeps-same : (j : ℕ) (h : History) → Keeps j h h
Keeps-same j h = record {
  same_job = refl;
  same_queue = refl;
  same_snapshot = refl;
  same_execution = refl;
  same_run = refl;
  same_occurrences = refl;
  same_events = refl;
}

-- A call of `prune_workspace_history` that returns keeps the job, its row in the queue, its snapshot,
-- execution, repository run, occurrences and events as they are, when an active state of the
-- workspace was last seen by the job, or its snapshot or repository run is the newest of the
-- workspace for its asset, or unfinished remediation of the workspace was opened from it or verified
-- by it.
pub prune_workspace_history-Keeps :
    (workspaces : List ℕ) (w now : ℕ) (only_if_due : Bool) (h after : History)
    (r : Option RetentionSweepResult) (j : ℕ)
    → prune_workspace_history workspaces w now only_if_due h ≡ ok (after, r)
    → is_needed w j h ≡ true
    → Keeps j h after
prune_workspace_history-Keeps workspaces w now only_if_due h after r j e n =
    elim (prune_workspace_history-cases workspaces w now only_if_due h after r e) [
      | inl same ↦ rw (← same) (Keeps-same j h)
      | inr (p, found, done) ↦ rw (← done) (sweep-Keeps w p now h j (is_needed-protected w j h n))
    ]
