-- ===== src/Continuous/States.antt =====
-- The active states of an asset through the loops of `record_successful_scan`
-- (src/cryptohawk/storage/continuous.py).
use crypto_hawk.Prelude.{
  ℕ, Bool, true, false, not, ◌&&◌, ◌||◌, Option, none, some, List, [], ◌∷◌, ◌≡◌, refl, arith, Table,
  has_key, member, Option-cases, inl, inr, if◌then◌else◌, ◌==◌,
}
use crypto_hawk.Domain.Findings.{Finding}
use crypto_hawk.Continuous.Records.{ObservationStateRecord}
use crypto_hawk.Continuous.Events.{ScanRun, is_state, find_state, put_state, seen_state, gone_state}
use crypto_hawk.Continuous.Drift.{
  Observed, observe, observe_all, resolve, resolve_all, missing, add_sorted, compare_scan,
}

abbrev pub is_active : Option ObservationStateRecord → Bool
is_active none = false
is_active (some s) = s.active

-- The state of a fingerprint is stored, and active.
unfoldable pub active_in : ℕ → ℕ → ℕ → List ObservationStateRecord → Bool
active_in workspace asset fingerprint states =
    is_active (find_state workspace asset fingerprint states)

pub find-put_state :
    (w a j : ℕ) (new : ObservationStateRecord) (states : List ObservationStateRecord)
    → find_state w a j (put_state new states)
      ≡ (if is_state w a j new then some new else find_state w a j states)
unfolding find_state put_state is_state
find-put_state w a j new [] = refl
find-put_state w a j new (s ∷ states) = ground (arith, find-put_state w a j new states)

pub find_state-is_state :
    (w a j : ℕ) (states : List ObservationStateRecord) (s : ObservationStateRecord)
    → find_state w a j states ≡ some s
    → is_state w a j s ≡ true
unfolding find_state
find_state-is_state w a j [] s h = ground arith
find_state-is_state w a j (t ∷ states) s h = ground (arith, find_state-is_state w a j states s)

seen_state-key :
    (run : ScanRun) (fp hash : ℕ) (f : Finding) (states : List ObservationStateRecord) (w a j : ℕ)
    → is_state w a j (seen_state run fp f hash (find_state run.workspace_id run.asset_id fp states))
      ≡ ((run.workspace_id == w) && ((run.asset_id == a) && (fp == j)))
unfolding seen_state is_state
seen_state-key run fp hash f states w a j =
    elim (Option-cases (find_state run.workspace_id run.asset_id fp states)) [
      | inl n ↦ rw (n, seen_state) refl
      | inr (s, e) ↦
          rw (e, seen_state)
            (ground (arith, find_state-is_state run.workspace_id run.asset_id fp states s e))
    ]

-- The stored state of any key after a finding.
pub find-observe :
    (hash_of : Finding → ℕ) (run : ScanRun) (baseline : Bool) (fp : ℕ) (f : Finding) (o : Observed)
    (w a j : ℕ)
    → find_state w a j (observe hash_of run baseline fp f o).states ≡ (
        if (run.workspace_id == w) && ((run.asset_id == a) && (fp == j))
        then some
            (seen_state run fp f (hash_of f) (find_state run.workspace_id run.asset_id fp o.states))
        else find_state w a j o.states)
unfolding observe
find-observe hash_of run baseline fp f o w a j =
    rw (← seen_state-key run fp (hash_of f) f o.states w a j) (find-put_state w a j _ o.states)

seen_state-active :
    (run : ScanRun) (fp hash : ℕ) (f : Finding) (o : Option ObservationStateRecord)
    → (seen_state run fp f hash o).active ≡ true
unfolding seen_state
seen_state-active run fp hash f none = refl
seen_state-active run fp hash f (some s) = refl

module _ (run : ScanRun) (baseline : Bool) (hash_of : Finding → ℕ) where
  pub active-observe :
      (fp : ℕ) (f : Finding) (o : Observed) (j : ℕ)
      → active_in run.workspace_id run.asset_id j (observe hash_of run baseline fp f o).states
        ≡ ((j == fp) || active_in run.workspace_id run.asset_id j o.states)
  unfolding active_in
  active-observe fp f o j = ground (
    arith,
    find-observe hash_of run baseline fp f o run.workspace_id run.asset_id j,
    seen_state-active run fp (hash_of f) f (find_state run.workspace_id run.asset_id fp o.states),
  )

  pub active-observe_all :
      (t : Table Finding) (o : Observed) (j : ℕ)
      → active_in run.workspace_id run.asset_id j (observe_all hash_of run baseline t o).states
        ≡ (has_key j t || active_in run.workspace_id run.asset_id j o.states)
  unfolding observe_all has_key
  active-observe_all [] o j = refl
  active-observe_all ((fp, f) ∷ t) o j =
      ground (
        arith,
        active-observe_all t (observe hash_of run baseline fp f o) j,
        active-observe fp f o j,
      )

  gone_state-key :
      (fp : ℕ) (o : Observed) (s : ObservationStateRecord) (w a j : ℕ)
      → find_state run.workspace_id run.asset_id fp o.states ≡ some s
      → is_state w a j (gone_state run s)
        ≡ ((run.workspace_id == w) && ((run.asset_id == a) && (fp == j)))
  unfolding gone_state is_state
  gone_state-key fp o s w a j e =
      ground (arith, find_state-is_state run.workspace_id run.asset_id fp o.states s e)

  -- The stored state of any key after a missing fingerprint is resolved.
  pub find-resolve :
      (fp : ℕ) (o : Observed) (w a j : ℕ)
      → find_state w a j (resolve run baseline fp o).states
        ≡ elim (find_state run.workspace_id run.asset_id fp o.states) [
          | none ↦ find_state w a j o.states
          | some s ↦
              if (run.workspace_id == w) && ((run.asset_id == a) && (fp == j))
              then some (gone_state run s)
              else find_state w a j o.states
        ]
  unfolding resolve
  find-resolve fp o w a j =
      elim (Option-cases (find_state run.workspace_id run.asset_id fp o.states)) [
        | inl n ↦ rw (n, resolve) refl
        | inr (s, e) ↦
            rw (e, resolve)
              (rw (← gone_state-key fp o s w a j e)
                (find-put_state w a j (gone_state run s) o.states))
      ]

  pub active-resolve :
      (fp : ℕ) (o : Observed) (j : ℕ)
      → active_in run.workspace_id run.asset_id j (resolve run baseline fp o).states
        ≡ (not (j == fp) && active_in run.workspace_id run.asset_id j o.states)
  unfolding active_in gone_state
  active-resolve fp o j = ground (arith, find-resolve fp o run.workspace_id run.asset_id j)

  pub active-resolve_all :
      (xs : List ℕ) (o : Observed) (j : ℕ)
      → active_in run.workspace_id run.asset_id j (resolve_all run baseline xs o).states
        ≡ (not (member j xs) && active_in run.workspace_id run.asset_id j o.states)
  unfolding resolve_all
  active-resolve_all [] o j = refl
  active-resolve_all (x ∷ xs) o j =
      ground (arith, active-resolve_all xs (resolve run baseline x o) j, active-resolve x o j)

pub member-add_sorted :
    (j x : ℕ) (xs : List ℕ) → member j (add_sorted x xs) ≡ ((j == x) || member j xs)
unfolding add_sorted
member-add_sorted j x [] = ground arith
member-add_sorted j x (y ∷ ys) = ground (arith, member-add_sorted j x ys)

-- A missing fingerprint is not in the scan, and an active one that is not in the scan is missing.
pub member-missing_sound :
    (w a j : ℕ) (t : Table Finding) (states : List ObservationStateRecord)
    → member j (missing w a t states) ≡ true
    → has_key j t ≡ false
unfolding missing
member-missing_sound w a j t [] h = ground arith
member-missing_sound w a j t (s ∷ states) h = ground (
  arith,
  member-missing_sound w a j t states,
  member-add_sorted j s.fingerprint (missing w a t states),
)

pub member-missing_complete :
    (w a j : ℕ) (t : Table Finding) (states : List ObservationStateRecord)
    → active_in w a j states ≡ true
    → has_key j t ≡ false
    → member j (missing w a t states) ≡ true
unfolding missing active_in find_state is_state
member-missing_complete w a j t [] h n = ground arith
member-missing_complete w a j t (s ∷ states) h n = ground (
  arith,
  member-missing_complete w a j t states,
  member-add_sorted j s.fingerprint (missing w a t states),
)

-- After the loops the active states of the asset are the current findings.
pub active-compare_scan :
    (hash_of : Finding → ℕ) (run : ScanRun) (baseline : Bool) (t : Table Finding) (o : Observed)
    (j : ℕ)
    → active_in run.workspace_id run.asset_id j (compare_scan hash_of run baseline t o).states
      ≡ has_key j t
unfolding compare_scan
active-compare_scan hash_of run baseline t o j =
    let gone = missing run.workspace_id run.asset_id t o.states in
    let seen = observe_all hash_of run baseline t (record o { events = [] }) in
    ground (
      arith,
      active-resolve_all run baseline hash_of gone seen j,
      active-observe_all run baseline hash_of t (record o { events = [] }) j,
      member-missing_sound run.workspace_id run.asset_id j t o.states,
      member-missing_complete run.workspace_id run.asset_id j t o.states,
    )
