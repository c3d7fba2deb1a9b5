-- ===== src/Continuous/Reports.antt =====
-- The events of the loops of `record_successful_scan` (src/cryptohawk/storage/continuous.py), counted
-- by their type and fingerprint.
use crypto_hawk.Prelude.{
  ℕ, ◌+◌, Bool, true, false, not, ◌&&◌, Option, none, some, List, [], ◌∷◌, ◌++◌, ◌≡◌, refl, arith,
  Table, has_key, member, one_if, is_some, ltb, ◌==◌, Option-cases, inl, inr, leb,
}
use crypto_hawk.Domain.Findings.{Finding}
use crypto_hawk.Continuous.Records.{
  ObservationStateRecord, DriftEvent, DriftEventType, introduced, changed, risk_increased,
  risk_decreased, resolved,
}
use crypto_hawk.Continuous.Events.{ScanRun, find_state, new_event, event_if, events_of_finding}
use crypto_hawk.Continuous.Drift.{
  Observed, observe, observe_all, resolve, resolve_all, missing, add_sorted,
}
use crypto_hawk.Continuous.States.{is_active, active_in, active-observe, find-resolve}

abbrev pub is_introduced : DriftEventType → Bool
is_introduced introduced = true
is_introduced changed = false
is_introduced risk_increased = false
is_introduced risk_decreased = false
is_introduced resolved = false

abbrev pub is_resolved : DriftEventType → Bool
is_resolved introduced = false
is_resolved changed = false
is_resolved risk_increased = false
is_resolved risk_decreased = false
is_resolved resolved = true

-- The events of a type with a fingerprint.
unfoldable pub events_with : (DriftEventType → Bool) → ℕ → List DriftEvent → ℕ
events_with test j [] = 0
events_with test j (e ∷ es) =
    one_if (test e.event_type && (e.fingerprint == j)) + events_with test j es

module _ (test : DriftEventType → Bool) (j : ℕ) where
  pub events_with-append :
      (xs ys : List DriftEvent)
      → events_with test j (xs ++ ys) ≡ events_with test j xs + events_with test j ys
  unfolding events_with
  events_with-append [] ys = ground arith
  events_with-append (x ∷ xs) ys = ground (arith, events_with-append xs ys)

  pub events_with-event_if :
      (b : Bool) (e : DriftEvent)
      → events_with test j (event_if b e)
        ≡ one_if (b && (test e.event_type && (e.fingerprint == j)))
  unfolding events_with
  events_with-event_if true e = ground arith
  events_with-event_if false e = refl

  events_with-event_if_append :
      (b : Bool) (e : DriftEvent) (es : List DriftEvent)
      → events_with test j (event_if b e ++ es)
        ≡ one_if (b && (test e.event_type && (e.fingerprint == j))) + events_with test j es
  unfolding events_with
  events_with-event_if_append true e es = refl
  events_with-event_if_append false e es = ground arith

unfoldable pub is_above : ℕ → List ℕ → Bool
is_above low [] = true
is_above low (x ∷ xs) = ltb low x && is_above x xs

unfoldable pub is_increasing : List ℕ → Bool
is_increasing [] = true
is_increasing (x ∷ xs) = is_above x xs

is_above-is_increasing : (low : ℕ) (xs : List ℕ) → is_above low xs ≡ true → is_increasing xs ≡ true
unfolding is_above is_increasing
is_above-is_increasing low [] h = refl
is_above-is_increasing low (x ∷ xs) h = ground arith

is_above-member :
    (low j : ℕ) (xs : List ℕ) → is_above low xs ≡ true → leb j low ≡ true → member j xs ≡ false
unfolding is_above
is_above-member low j [] h l = refl
is_above-member low j (x ∷ xs) h l = ground (arith, is_above-member x j xs)

is_above-add_sorted :
    (low x : ℕ) (xs : List ℕ)
    → is_above low xs ≡ true
    → ltb low x ≡ true
    → is_above low (add_sorted x xs) ≡ true
unfolding is_above add_sorted
is_above-add_sorted low x [] h l = ground arith
is_above-add_sorted low x (y ∷ ys) h l = ground (arith, is_above-add_sorted y x ys)

is_increasing-add_sorted :
    (x : ℕ) (xs : List ℕ) → is_increasing xs ≡ true → is_increasing (add_sorted x xs) ≡ true
unfolding is_increasing add_sorted is_above
is_increasing-add_sorted x [] h = refl
is_increasing-add_sorted x (y ∷ ys) h = ground (arith, is_above-add_sorted y x ys)

pub is_increasing-missing :
    (w a : ℕ) (t : Table Finding) (states : List ObservationStateRecord)
    → is_increasing (missing w a t states) ≡ true
unfolding missing is_increasing
is_increasing-missing w a t [] = refl
is_increasing-missing w a t (s ∷ states) = ground (
  arith,
  is_increasing-missing w a t states,
  is_increasing-add_sorted s.fingerprint (missing w a t states),
)

module _ (run : ScanRun) (baseline : Bool) (hash_of : Finding → ℕ) (j : ℕ) where
  introduced-events_of_finding :
      (fp : ℕ) (f : Finding) (hash : ℕ) (o : Option ObservationStateRecord)
      → events_with is_introduced j (events_of_finding run baseline fp f hash o)
        ≡ one_if (baseline && ((fp == j) && not (is_active o)))
  unfolding events_of_finding new_event
  introduced-events_of_finding fp f hash none =
      rw (events_with-event_if is_introduced j) (ground arith)
  introduced-events_of_finding fp f hash (some s) =
      rw
        (
          events_with-event_if_append is_introduced j,
          events_with-event_if_append is_introduced j,
          events_with-event_if_append is_introduced j,
          events_with-event_if is_introduced j,
        )
        (ground arith)

  resolved-events_of_finding :
      (fp : ℕ) (f : Finding) (hash : ℕ) (o : Option ObservationStateRecord)
      → events_with is_resolved j (events_of_finding run baseline fp f hash o) ≡ 0
  unfolding events_of_finding new_event
  resolved-events_of_finding fp f hash none = rw (events_with-event_if is_resolved j) (ground arith)
  resolved-events_of_finding fp f hash (some s) =
      rw
        (
          events_with-event_if_append is_resolved j,
          events_with-event_if_append is_resolved j,
          events_with-event_if_append is_resolved j,
          events_with-event_if is_resolved j,
        )
        (ground arith)

  introduced-observe :
      (fp : ℕ) (f : Finding) (o : Observed)
      → events_with is_introduced j (observe hash_of run baseline fp f o).events
        ≡ events_with is_introduced j o.events
          + one_if
              (baseline && ((fp == j) && not (active_in run.workspace_id run.asset_id fp o.states)))
  unfolding observe active_in
  introduced-observe fp f o =
      rw (events_with-append is_introduced j o.events, introduced-events_of_finding) refl

  pub introduced-observe_all :
      (t : Table Finding) (o : Observed)
      → events_with is_introduced j (observe_all hash_of run baseline t o).events
        ≡ events_with is_introduced j o.events
          + one_if (
              baseline && (has_key j t && not (active_in run.workspace_id run.asset_id j o.states)))
  unfolding observe_all has_key
  introduced-observe_all [] o = ground arith
  introduced-observe_all ((fp, f) ∷ t) o = ground (
    arith,
    introduced-observe_all t (observe hash_of run baseline fp f o),
    active-observe run baseline hash_of fp f o j,
    introduced-observe fp f o,
  )

  resolved-observe :
      (fp : ℕ) (f : Finding) (o : Observed)
      → events_with is_resolved j (observe hash_of run baseline fp f o).events
        ≡ events_with is_resolved j o.events
  unfolding observe
  resolved-observe fp f o =
      rw (events_with-append is_resolved j o.events, resolved-events_of_finding) (ground arith)

  pub resolved-observe_all :
      (t : Table Finding) (o : Observed)
      → events_with is_resolved j (observe_all hash_of run baseline t o).events
        ≡ events_with is_resolved j o.events
  unfolding observe_all
  resolved-observe_all [] o = refl
  resolved-observe_all ((fp, f) ∷ t) o =
      ground (
        arith,
        resolved-observe_all t (observe hash_of run baseline fp f o),
        resolved-observe fp f o,
      )

  introduced-resolve :
      (fp : ℕ) (o : Observed)
      → events_with is_introduced j (resolve run baseline fp o).events
        ≡ events_with is_introduced j o.events
  unfolding resolve new_event
  introduced-resolve fp o =
      elim (Option-cases (find_state run.workspace_id run.asset_id fp o.states)) [
        | inl n ↦ rw (n, resolve) refl
        | inr (s, e) ↦
            rw (e, resolve)
              (rw
                (events_with-append is_introduced j o.events, events_with-event_if is_introduced j)
                (ground arith))
      ]

  pub introduced-resolve_all :
      (xs : List ℕ) (o : Observed)
      → events_with is_introduced j (resolve_all run baseline xs o).events
        ≡ events_with is_introduced j o.events
  unfolding resolve_all
  introduced-resolve_all [] o = refl
  introduced-resolve_all (x ∷ xs) o =
      ground (arith, introduced-resolve_all xs (resolve run baseline x o), introduced-resolve x o)

  resolved-resolve :
      (fp : ℕ) (o : Observed)
      → events_with is_resolved j (resolve run baseline fp o).events
        ≡ events_with is_resolved j o.events
          + one_if (
              baseline
              && ((fp == j) && is_some (find_state run.workspace_id run.asset_id fp o.states)))
  unfolding resolve new_event
  resolved-resolve fp o =
      elim (Option-cases (find_state run.workspace_id run.asset_id fp o.states)) [
        | inl n ↦ rw (n, resolve) (ground arith)
        | inr (s, e) ↦
            rw (e, resolve)
              (rw (events_with-append is_resolved j o.events, events_with-event_if is_resolved j)
                (ground arith))
      ]

  stored-resolve :
      (fp : ℕ) (o : Observed)
      → is_some (find_state run.workspace_id run.asset_id j (resolve run baseline fp o).states)
        ≡ is_some (find_state run.workspace_id run.asset_id j o.states)
  stored-resolve fp o =
      ground (arith, find-resolve run baseline hash_of fp o run.workspace_id run.asset_id j)

  pub resolved-resolve_all :
      (xs : List ℕ) (o : Observed)
      → is_increasing xs ≡ true
      → events_with is_resolved j (resolve_all run baseline xs o).events
        ≡ events_with is_resolved j o.events
          + one_if (
              baseline
              && (member j xs && is_some (find_state run.workspace_id run.asset_id j o.states)))
  unfolding resolve_all is_increasing
  resolved-resolve_all [] o h = ground arith
  resolved-resolve_all (x ∷ xs) o h = ground (
    arith,
    resolved-resolve_all xs (resolve run baseline x o),
    resolved-resolve x o,
    stored-resolve x o,
    is_above-member x j xs,
    is_above-is_increasing x xs,
  )
