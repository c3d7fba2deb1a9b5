-- ===== src/Continuous/Repeated.antt =====
-- A scan recorded twice by `record_successful_scan` (src/cryptohawk/storage/continuous.py).
use mathlib.Core.List.{Perm}
use mathlib.Core.List.Perm
use crypto_hawk.Prelude.{
  ℕ, Bool, true, false, not, ◌||◌, ◌&&◌, Option, none, some, List, [], ◌∷◌, ◌++◌, ◌≡◌, refl, arith,
  Table, lookup, insert, lookup-insert, is_some, ◌==◌, Option-cases, inl, inr, ◌&&◌, Bool-cases,
}
use crypto_hawk.Domain.Findings.{Finding}
use crypto_hawk.Continuous.Records.{ScanSnapshotRecord, ObservationStateRecord, DriftEvent}
use crypto_hawk.Continuous.Events.{ScanRun, find_state, new_event, event_if, events_of_finding}
use crypto_hawk.Continuous.Fingerprints.{Digests, evidence_hash}
use crypto_hawk.Continuous.Drift.{
  Observed, ScanStore, observe, observe_all, resolve, resolve_all, compare_scan, stored_events,
  has_baseline, current_findings, record_new_scan, record_successful_scan, order_events,
  place_event, comes_after, events_of_job,
}

-- Each event is of the job.
unfoldable is_from : ℕ → List DriftEvent → Bool
is_from job [] = true
is_from job (e ∷ es) = (e.scan_job_id == job) && is_from job es

is_from-append :
    (job : ℕ) (xs ys : List DriftEvent)
    → is_from job (xs ++ ys) ≡ (is_from job xs && is_from job ys)
unfolding is_from
is_from-append job [] ys = refl
is_from-append job (x ∷ xs) ys = ground (arith, is_from-append job xs ys)

is_from-event_if :
    (job : ℕ) (b : Bool) (e : DriftEvent)
    → is_from job (event_if b e) ≡ (not b || (e.scan_job_id == job))
unfolding is_from
is_from-event_if job true e = ground arith
is_from-event_if job false e = refl

stored_events-is_from :
    (job : ℕ) (es : List DriftEvent) → is_from job es ≡ true → stored_events job es ≡ es
unfolding stored_events is_from
stored_events-is_from job [] h = refl
stored_events-is_from job (e ∷ es) h = ground (arith, stored_events-is_from job es)

stored_events-append :
    (job : ℕ) (xs ys : List DriftEvent)
    → stored_events job xs ≡ []
    → stored_events job (xs ++ ys) ≡ stored_events job ys
unfolding stored_events
stored_events-append job [] ys h = refl
stored_events-append job (x ∷ xs) ys h = ground (arith, stored_events-append job xs ys)

module _ (hash_of : Finding → ℕ) (run : ScanRun) (baseline : Bool) where
  is_from-events_of_finding :
      (fp : ℕ) (f : Finding) (hash : ℕ) (o : Option ObservationStateRecord)
      → is_from run.scan_job_id (events_of_finding run baseline fp f hash o) ≡ true
  unfolding events_of_finding new_event
  is_from-events_of_finding fp f hash none = rw (is_from-event_if run.scan_job_id) (ground arith)
  is_from-events_of_finding fp f hash (some s) =
      rw
        (
          is_from-append run.scan_job_id,
          is_from-append run.scan_job_id,
          is_from-append run.scan_job_id,
          is_from-event_if run.scan_job_id,
          is_from-event_if run.scan_job_id,
          is_from-event_if run.scan_job_id,
          is_from-event_if run.scan_job_id,
        )
        (ground arith)

  is_from-observe_all :
      (t : Table Finding) (o : Observed)
      → is_from run.scan_job_id o.events ≡ true
      → is_from run.scan_job_id (observe_all hash_of run baseline t o).events ≡ true
  unfolding observe_all observe
  is_from-observe_all [] o h = h
  is_from-observe_all ((fp, f) ∷ t) o h =
      is_from-observe_all t (observe hash_of run baseline fp f o)
        (rw (is_from-append run.scan_job_id o.events, h) (is_from-events_of_finding fp f _ _))

  is_from-resolve :
      (fp : ℕ) (o : Observed)
      → is_from run.scan_job_id o.events ≡ true
      → is_from run.scan_job_id (resolve run baseline fp o).events ≡ true
  unfolding resolve new_event
  is_from-resolve fp o h =
      elim (Option-cases (find_state run.workspace_id run.asset_id fp o.states)) [
        | inl n ↦ rw (n, resolve) h
        | inr (s, e) ↦
            rw (e, resolve)
              (rw (is_from-append run.scan_job_id o.events, h, is_from-event_if run.scan_job_id)
                (ground arith))
      ]

  is_from-resolve_all :
      (xs : List ℕ) (o : Observed)
      → is_from run.scan_job_id o.events ≡ true
      → is_from run.scan_job_id (resolve_all run baseline xs o).events ≡ true
  unfolding resolve_all
  is_from-resolve_all [] o h = h
  is_from-resolve_all (x ∷ xs) o h =
      is_from-resolve_all xs (resolve run baseline x o) (is_from-resolve x o h)

  is_from-compare_scan :
      (t : Table Finding) (o : Observed)
      → is_from run.scan_job_id (compare_scan hash_of run baseline t o).events ≡ true
  unfolding compare_scan is_from
  is_from-compare_scan t o =
      is_from-resolve_all _ _ (is_from-observe_all t (record o { events = [] }) refl)

place_event-perm :
    (event_id : DriftEvent → ℕ) (d : DriftEvent) (es : List DriftEvent)
    → Perm (place_event event_id d es) (d ∷ es)
unfolding place_event
place_event-perm event_id d [] = Perm.rfl
place_event-perm event_id d (e ∷ es) = elim (Bool-cases (comes_after event_id d e)) [
  | inl after ↦
      rw (after, place_event)
        (Perm.trans (Perm.cons e (place_event-perm event_id d es)) (Perm.swap d e es))
  | inr before ↦ rw (before, place_event) Perm.rfl
]

order_events-perm :
    (event_id : DriftEvent → ℕ) (es : List DriftEvent) → Perm (order_events event_id es) es
unfolding order_events
order_events-perm event_id [] = Perm.rfl
order_events-perm event_id (d ∷ es) =
    Perm.trans (place_event-perm event_id d (order_events event_id es))
      (Perm.cons d (order_events-perm event_id es))

lookup-inserted {ℓ} :
    {V : Type ℓ} (k : ℕ) (v : V) (d : Table V)
    → lookup k d ≡ none
    → lookup k (insert k v d) ≡ some v
lookup-inserted k v d n = ground (arith, lookup-insert k k v d)

module _ (h : Digests) where
  record_successful_scan-known :
      (run : ScanRun) (findings : List Finding) (store : ScanStore) (s : ScanSnapshotRecord)
      → lookup run.scan_job_id store.snapshots ≡ some s
      → record_successful_scan h run findings store
        ≡ (store, events_of_job h.event_id run.scan_job_id store.observed.events)
  unfolding record_successful_scan
  record_successful_scan-known run findings store s e = rw (e, record_successful_scan) refl

  record_successful_scan-new :
      (run : ScanRun) (findings : List Finding) (store : ScanStore)
      → lookup run.scan_job_id store.snapshots ≡ none
      → record_successful_scan h run findings store ≡ record_new_scan h run findings store
  unfolding record_successful_scan
  record_successful_scan-new run findings store n = rw (n, record_successful_scan) refl

  stored_events-record_new_scan :
      (run : ScanRun) (findings : List Finding) (store : ScanStore)
      → stored_events run.scan_job_id store.observed.events ≡ []
      → stored_events run.scan_job_id (record_new_scan h run findings store).0.observed.events
        ≡ (record_new_scan h run findings store).1
  unfolding record_new_scan
  stored_events-record_new_scan run findings store e =
      let baseline = has_baseline run store in
      let current = current_findings h run findings in
      let after = compare_scan (evidence_hash h) run baseline current store.observed in
      rw (stored_events-append run.scan_job_id store.observed.events after.events e) (
        stored_events-is_from run.scan_job_id after.events
          (is_from-compare_scan (evidence_hash h) run baseline current store.observed))

  snapshot-record_new_scan :
      (run : ScanRun) (findings : List Finding) (store : ScanStore)
      → lookup run.scan_job_id store.snapshots ≡ none
      → is_some (lookup run.scan_job_id (record_new_scan h run findings store).0.snapshots) ≡ true
  unfolding record_new_scan
  snapshot-record_new_scan run findings store n =
      rw (lookup-inserted run.scan_job_id _ store.snapshots n) refl

  -- The stored events of the recorded scan, in the order of the query.
  sorted_again :
      (run again : ScanRun) (findings : List Finding) (store : ScanStore)
      → stored_events run.scan_job_id store.observed.events ≡ []
      → again.scan_job_id ≡ run.scan_job_id
      → events_of_job h.event_id again.scan_job_id
          (record_new_scan h run findings store).0.observed.events
        ≡ order_events h.event_id (record_new_scan h run findings store).1
  unfolding events_of_job
  sorted_again run again findings store e same =
      rw (same, stored_events-record_new_scan run findings store e) refl

  -- When the job of a scan has neither a snapshot nor an event and its scan is recorded, recording a
  -- scan of that job again, with any other arguments and findings, changes nothing and returns the
  -- events that the first call returned, each as often, in an order of their times and identifiers.
  pub record_successful_scan_again :
      (run again : ScanRun) (findings others : List Finding) (store : ScanStore)
      → lookup run.scan_job_id store.snapshots ≡ none
      → stored_events run.scan_job_id store.observed.events ≡ []
      → again.scan_job_id ≡ run.scan_job_id
      → let (first, events) = record_successful_scan h run findings store in
        let (second, returned) = record_successful_scan h again others first in
        (second ≡ first) × Perm returned events × (returned ≡ order_events h.event_id events)
  record_successful_scan_again run again findings others store n e same =
      let recorded = record_new_scan h run findings store in
      rw (record_successful_scan-new run findings store n)
        (elim (Option-cases (lookup run.scan_job_id recorded.0.snapshots)) [
          | inl none_left ↦ ground (arith, snapshot-record_new_scan run findings store n)
          | inr (s, found) ↦
              rw (record_successful_scan-known again others recorded.0 s (rw same found)) (
                let placed = sorted_again run again findings store e same in
                (refl, rw placed (order_events-perm h.event_id recorded.1), placed))
        ])
