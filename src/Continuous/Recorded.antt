-- ===== src/Continuous/Recorded.antt =====
-- What `record_successful_scan` (src/cryptohawk/storage/continuous.py) leaves and returns.
use crypto_hawk.Prelude.{
  ℕ, Bool, true, not, ◌&&◌, none, List, [], ◌∷◌, ◌≡◌, refl, arith, Table, has_key, lookup, member,
  one_if, is_none, Option-cases, inl, inr,
}
use crypto_hawk.Domain.Findings.{Finding}
use crypto_hawk.Continuous.Records.{ObservationStateRecord}
use crypto_hawk.Continuous.Events.{ScanRun, find_state, is_state, put_state, gone_state}
use crypto_hawk.Continuous.Fingerprints.{Digests, evidence_hash}
use crypto_hawk.Continuous.Drift.{
  Observed, ScanStore, observe, observe_all, resolve, resolve_all, missing, compare_scan,
  has_baseline, current_findings, record_new_scan, record_successful_scan,
}
use crypto_hawk.Continuous.States.{
  active_in, active-observe_all, active-compare_scan, find-put_state, member-add_sorted,
}
use crypto_hawk.Continuous.Prepared.{mentions, has_key-current_findings}
use crypto_hawk.Continuous.Reports.{
  is_introduced, is_resolved, events_with, introduced-observe_all, resolved-observe_all,
  introduced-resolve_all, resolved-resolve_all, is_increasing-missing,
}

-- The unique key of the table of states.
unfoldable pub has_unique_keys : List ObservationStateRecord → Bool
has_unique_keys [] = true
has_unique_keys (s ∷ rest) =
    is_none (find_state s.workspace_id s.asset_id s.fingerprint rest) && has_unique_keys rest

has_unique_keys-put_state :
    (new : ObservationStateRecord) (states : List ObservationStateRecord)
    → has_unique_keys states ≡ true
    → has_unique_keys (put_state new states) ≡ true
unfolding has_unique_keys put_state find_state is_state
has_unique_keys-put_state new [] h = refl
has_unique_keys-put_state new (s ∷ states) h = ground (
  arith,
  has_unique_keys-put_state new states,
  find-put_state s.workspace_id s.asset_id s.fingerprint new states,
)

member-missing :
    (w a j : ℕ) (t : Table Finding) (states : List ObservationStateRecord)
    → has_unique_keys states ≡ true
    → member j (missing w a t states) ≡ (active_in w a j states && not (has_key j t))
unfolding missing active_in find_state is_state has_unique_keys
member-missing w a j t [] h = refl
member-missing w a j t (s ∷ states) h =
    ground (
      arith,
      member-missing w a j t states,
      member-add_sorted j s.fingerprint (missing w a t states),
    )

module _ (hash_of : Finding → ℕ) (run : ScanRun) (baseline : Bool) where
  has_unique_keys-observe_all :
      (t : Table Finding) (o : Observed)
      → has_unique_keys o.states ≡ true
      → has_unique_keys (observe_all hash_of run baseline t o).states ≡ true
  unfolding observe_all observe
  has_unique_keys-observe_all [] o h = h
  has_unique_keys-observe_all ((fp, f) ∷ t) o h =
      has_unique_keys-observe_all t (observe hash_of run baseline fp f o)
        (has_unique_keys-put_state _ o.states h)

  has_unique_keys-resolve :
      (fp : ℕ) (o : Observed)
      → has_unique_keys o.states ≡ true
      → has_unique_keys (resolve run baseline fp o).states ≡ true
  unfolding resolve
  has_unique_keys-resolve fp o h =
      elim (Option-cases (find_state run.workspace_id run.asset_id fp o.states)) [
        | inl n ↦ rw (n, resolve) h
        | inr (s, e) ↦ rw (e, resolve) (has_unique_keys-put_state (gone_state run s) o.states h)
      ]

  has_unique_keys-resolve_all :
      (xs : List ℕ) (o : Observed)
      → has_unique_keys o.states ≡ true
      → has_unique_keys (resolve_all run baseline xs o).states ≡ true
  unfolding resolve_all
  has_unique_keys-resolve_all [] o h = h
  has_unique_keys-resolve_all (x ∷ xs) o h =
      has_unique_keys-resolve_all xs (resolve run baseline x o) (has_unique_keys-resolve x o h)

  introduced-compare_scan :
      (t : Table Finding) (o : Observed) (j : ℕ)
      → events_with is_introduced j (compare_scan hash_of run baseline t o).events
        ≡ one_if
            (baseline && (has_key j t && not (active_in run.workspace_id run.asset_id j o.states)))
  unfolding compare_scan events_with
  introduced-compare_scan t o j =
      let start = record o { events = [] } in
      ground (
        arith,
        introduced-resolve_all run baseline hash_of j
            (missing run.workspace_id run.asset_id t o.states)
            (observe_all hash_of run baseline t start),
        introduced-observe_all run baseline hash_of j t start,
      )

  resolved-compare_scan :
      (t : Table Finding) (o : Observed) (j : ℕ)
      → has_unique_keys o.states ≡ true
      → events_with is_resolved j (compare_scan hash_of run baseline t o).events
        ≡ one_if
            (baseline && (active_in run.workspace_id run.asset_id j o.states && not (has_key j t)))
  unfolding compare_scan events_with active_in
  resolved-compare_scan t o j h =
      let start = record o { events = [] } in
      let gone = missing run.workspace_id run.asset_id t o.states in
      let seen = observe_all hash_of run baseline t start in
      ground (
        arith,
        resolved-resolve_all run baseline hash_of j gone seen,
        is_increasing-missing run.workspace_id run.asset_id t o.states,
        resolved-observe_all run baseline hash_of j t start,
        member-missing run.workspace_id run.asset_id j t o.states,
        active-observe_all run baseline hash_of t start j,
      )

module _ (h : Digests) where
  -- After a scan whose job has no snapshot is recorded, the state of a fingerprint of the asset is
  -- stored and active exactly when a finding of the scan has that fingerprint.
  pub active-record_successful_scan :
      (run : ScanRun) (findings : List Finding) (store : ScanStore) (j : ℕ)
      → lookup run.scan_job_id store.snapshots ≡ none
      → active_in run.workspace_id run.asset_id j
          (record_successful_scan h run findings store).0.observed.states
        ≡ mentions h j findings
  unfolding record_new_scan record_successful_scan
  active-record_successful_scan run findings store j n =
      rw (n, record_successful_scan)
        (ground (
          arith,
          active-compare_scan (evidence_hash h) run (has_baseline run store)
              (current_findings h run findings) store.observed j,
          has_key-current_findings h run j findings,
        ))

  -- Recording a scan whose job has no snapshot, over states with unique keys, returns one
  -- introduced event for a fingerprint when there was a snapshot of the asset, a finding has the
  -- fingerprint and its state was not active, and none otherwise; and one resolved event when there
  -- was a snapshot, the state was active and no finding has the fingerprint, and none otherwise.
  pub events-record_successful_scan :
      (run : ScanRun) (findings : List Finding) (store : ScanStore) (j : ℕ)
      → lookup run.scan_job_id store.snapshots ≡ none
      → has_unique_keys store.observed.states ≡ true
      → (events_with is_introduced j (record_successful_scan h run findings store).1
          ≡ one_if (
              has_baseline run store
              && (mentions h j findings
                  && not (active_in run.workspace_id run.asset_id j store.observed.states))))
        × (events_with is_resolved j (record_successful_scan h run findings store).1
            ≡ one_if (
                has_baseline run store
                && (active_in run.workspace_id run.asset_id j store.observed.states
                    && not (mentions h j findings))))
  unfolding record_new_scan record_successful_scan
  events-record_successful_scan run findings store j n u =
      rw (n, record_successful_scan)
        (rw (← has_key-current_findings h run j findings) (
          introduced-compare_scan (evidence_hash h) run (has_baseline run store)
              (current_findings h run findings) store.observed j,
          resolved-compare_scan (evidence_hash h) run (has_baseline run store)
              (current_findings h run findings) store.observed j u,
        ))

  -- Recording a scan keeps the keys of the states unique.
  pub has_unique_keys-record_successful_scan :
      (run : ScanRun) (findings : List Finding) (store : ScanStore)
      → has_unique_keys store.observed.states ≡ true
      → has_unique_keys (record_successful_scan h run findings store).0.observed.states ≡ true
  unfolding record_new_scan record_successful_scan compare_scan
  has_unique_keys-record_successful_scan run findings store u =
      elim (Option-cases (lookup run.scan_job_id store.snapshots)) [
        | inr (s, e) ↦ rw (e, record_successful_scan) u
        | inl n ↦
            rw (n, record_successful_scan)
              (has_unique_keys-resolve_all (evidence_hash h) run (has_baseline run store) _ _
                (has_unique_keys-observe_all (evidence_hash h) run (has_baseline run store) _ _ u))
      ]
