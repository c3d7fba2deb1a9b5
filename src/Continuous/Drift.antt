-- ===== src/Continuous/Drift.antt =====
-- `record_successful_scan` of src/cryptohawk/storage/continuous.py: the states of the observations of
-- an asset, the occurrences of a scan and the events of what has changed. The events of a scan that
-- was recorded before are returned in the order of their times and then of their identifiers.
use crypto_hawk.Prelude.{
  ℕ, Bool, true, not, ◌&&◌, Option, none, some, List, [], ◌∷◌, ◌++◌, Table, lookup, insert, count,
  has_key, length, ltb, ◌==◌, if◌then◌else◌, ◌||◌,
}
use crypto_hawk.Domain.Findings.{Finding}
use crypto_hawk.Continuous.Records.{
  ScanSnapshotRecord, ObservationStateRecord, ObservationOccurrenceRecord, DriftEvent, resolved,
  ScheduledExecutionRecord, api, schedule,
}
use crypto_hawk.Continuous.Events.{
  ScanRun, find_state, put_state, new_event, event_if, events_of_finding, seen_state, occurrence_of,
  gone_state,
}
use crypto_hawk.Continuous.Fingerprints.{Digests, evidence_hash, prepare_findings, by_fingerprint}

pub record Observed : Type 0 where
  pub states : List ObservationStateRecord
  pub occurrences : List ObservationOccurrenceRecord
  pub events : List DriftEvent

pub record ScanStore : Type 0 where
  pub snapshots : Table ScanSnapshotRecord
  pub executions : Table ScheduledExecutionRecord
  pub observed : Observed

-- One turn of the loop over the findings, and the loop; a hash is given for each finding.
unfoldable pub observe : (Finding → ℕ) → ScanRun → Bool → ℕ → Finding → Observed → Observed
observe hash_of run baseline fingerprint f o =
    let old = find_state run.workspace_id run.asset_id fingerprint o.states in
    let hash = hash_of f in
    record {
      states = put_state (seen_state run fingerprint f hash old) o.states;
      occurrences = o.occurrences ++ occurrence_of run fingerprint f hash ∷ [];
      events = o.events ++ events_of_finding run baseline fingerprint f hash old;
    }

unfoldable pub observe_all : (Finding → ℕ) → ScanRun → Bool → Table Finding → Observed → Observed
observe_all hash_of run baseline [] o = o
observe_all hash_of run baseline ((fingerprint, f) ∷ rest) o =
    observe_all hash_of run baseline rest (observe hash_of run baseline fingerprint f o)

-- A sorted set of fingerprints.
unfoldable pub add_sorted : ℕ → List ℕ → List ℕ
add_sorted x [] = x ∷ []
add_sorted x (y ∷ ys) =
    if x == y then y ∷ ys else if ltb x y then x ∷ y ∷ ys else y ∷ add_sorted x ys

-- `sorted(active_before - set(current_by_fingerprint))`
unfoldable pub missing : ℕ → ℕ → Table Finding → List ObservationStateRecord → List ℕ
missing workspace asset current [] = []
missing workspace asset current (s ∷ rest) =
    let later = missing workspace asset current rest in
    if (s.workspace_id == workspace)
      && ((s.asset_id == asset) && (s.active && not (has_key s.fingerprint current)))
    then add_sorted s.fingerprint later
    else later

unfoldable pub resolve : ScanRun → Bool → ℕ → Observed → Observed
resolve run baseline fingerprint o =
    elim (find_state run.workspace_id run.asset_id fingerprint o.states) [
      | none ↦ o
      | some s ↦ record o {
        states = put_state (gone_state run s) o.states;
        events =
            o.events
            ++ event_if baseline (
                new_event run fingerprint resolved s.finding_payload (some s.risk_score)
                  (some s.severity) true);
      }
    ]

unfoldable pub resolve_all : ScanRun → Bool → List ℕ → Observed → Observed
resolve_all run baseline [] o = o
resolve_all run baseline (fingerprint ∷ rest) o =
    resolve_all run baseline rest (resolve run baseline fingerprint o)

unfoldable pub is_of_asset : ℕ → ℕ → ScanSnapshotRecord → Bool
is_of_asset workspace asset s = (s.workspace_id == workspace) && (s.asset_id == asset)

-- `baseline_exists`
unfoldable pub has_baseline : ScanRun → ScanStore → Bool
has_baseline run store = ltb 0 (count (is_of_asset run.workspace_id run.asset_id) store.snapshots)

-- `WHERE scan_job_id = job`
unfoldable pub stored_events : ℕ → List DriftEvent → List DriftEvent
stored_events job [] = []
stored_events job (e ∷ es) =
    if e.scan_job_id == job then e ∷ stored_events job es else stored_events job es

-- `ORDER BY occurred_at, id`, with the identifier of each event
unfoldable pub comes_after : (DriftEvent → ℕ) → DriftEvent → DriftEvent → Bool
comes_after event_id d e =
    ltb e.occurred_at d.occurred_at
    || ((e.occurred_at == d.occurred_at) && ltb (event_id e) (event_id d))

unfoldable pub place_event : (DriftEvent → ℕ) → DriftEvent → List DriftEvent → List DriftEvent
place_event event_id d [] = d ∷ []
place_event event_id d (e ∷ es) =
    let rest = place_event event_id d es in
    if comes_after event_id d e then e ∷ rest else d ∷ e ∷ es

unfoldable pub order_events : (DriftEvent → ℕ) → List DriftEvent → List DriftEvent
order_events event_id [] = []
order_events event_id (d ∷ es) = place_event event_id d (order_events event_id es)

unfoldable pub events_of_job : (DriftEvent → ℕ) → ℕ → List DriftEvent → List DriftEvent
events_of_job event_id job es = order_events event_id (stored_events job es)

unfoldable pub keys : Table Finding → List ℕ
keys [] = []
keys ((fingerprint, f) ∷ rest) = fingerprint ∷ keys rest

unfoldable pub sort_fingerprints : List ℕ → List ℕ
sort_fingerprints [] = []
sort_fingerprints (x ∷ xs) = add_sorted x (sort_fingerprints xs)

-- The snapshot of the scan, with the schedule that it was run for.
unfoldable pub new_snapshot : ScanRun → Option ScheduledExecutionRecord → ℕ → ℕ → ScanSnapshotRecord
new_snapshot run scheduled findings set_hash = record {
  workspace_id = run.workspace_id;
  asset_id = run.asset_id;
  origin = elim scheduled [ none ↦ api | some e ↦ schedule ];
  schedule_id = elim scheduled [ none ↦ none | some e ↦ some e.schedule_id ];
  scheduled_for = elim scheduled [ none ↦ none | some e ↦ some e.scheduled_for ];
  completed_at = run.now;
  finding_count = findings;
  scanner_version = run.scanner_version;
  policy_version = run.policy_version;
  fingerprint_set_hash = set_hash;
}

-- What the loops over the current findings and over the missing ones do; new events stand alone.
unfoldable pub compare_scan : (Finding → ℕ) → ScanRun → Bool → Table Finding → Observed → Observed
compare_scan hash_of run baseline current o =
    resolve_all run baseline (missing run.workspace_id run.asset_id current o.states)
      (observe_all hash_of run baseline current (record o { events = [] }))

module _ (h : Digests) where
  unfoldable pub current_findings : ScanRun → List Finding → Table Finding
  current_findings run findings = by_fingerprint h (prepare_findings h run.scan_job_id findings) []

  unfoldable pub record_new_scan : ScanRun → List Finding → ScanStore → ScanStore × List DriftEvent
  record_new_scan run findings store =
      let current = current_findings run findings in
      let after =
        compare_scan (evidence_hash h) run (has_baseline run store) current store.observed in
      (
        record store {
          observed = record after { events = store.observed.events ++ after.events };
          snapshots =
              insert run.scan_job_id
                (new_snapshot run (lookup run.scan_job_id store.executions)
                  (length (prepare_findings h run.scan_job_id findings))
                  (h.of_set (sort_fingerprints (keys current))))
                store.snapshots;
        },
        after.events,
      )

  unfoldable pub record_successful_scan :
      ScanRun → List Finding → ScanStore → ScanStore × List DriftEvent
  record_successful_scan run findings store = elim (lookup run.scan_job_id store.snapshots) [
    | some snapshot ↦ (store, events_of_job h.event_id run.scan_job_id store.observed.events)
    | none ↦ record_new_scan run findings store
  ]
