-- ===== src/Prelude/Dict.antt =====
-- A table keyed by a primary key: the rows in insertion order, each key's first row counting.
use Prim.Native.Nat.{ℕ, ◌+◌, ◌≤◌}
use mathlib.Core.Path.{◌≡◌, refl}
use mathlib.Core.Logic.{◌≢◌}
use mathlib.Core.Bool.{Bool, true, false, not, ◌&&◌, ◌||◌}
use mathlib.Core.Option.{Option, none, some}
use mathlib.Core.List.{List, [], ◌∷◌}
use native.Mathlib.Omega.{arith}
use crypto_hawk.Prelude.Tests.{is_some, ◌==◌, if◌then◌else◌}

abbrev pub Table {ℓ} : Type ℓ → Type ℓ
Table V = List (ℕ × V)

-- 1 for a row that passes a test
abbrev pub one_if : Bool → ℕ
one_if true = 1
one_if false = 0

module _ {ℓ} {V : Type ℓ} where
  -- `session.get`
  unfoldable pub lookup : ℕ → Table V → Option V
  lookup key [] = none
  lookup key ((j, row) ∷ rows) = if key == j then some row else lookup key rows

  -- `UPDATE ... WHERE key = k`
  unfoldable pub modify : ℕ → (V → V) → Table V → Table V
  modify k f [] = []
  modify k f ((j, v) ∷ d) = if k == j then (j, f v) ∷ d else (j, v) ∷ modify k f d

  -- `session.add` of a row whose key is new
  unfoldable pub insert : ℕ → V → Table V → Table V
  insert key new [] = (key, new) ∷ []
  insert key new (row ∷ rows) = row ∷ insert key new rows

  -- `SELECT count(*) ... WHERE test`
  unfoldable pub count : (V → Bool) → Table V → ℕ
  count test [] = 0
  count test ((j, v) ∷ d) = one_if (test v) + count test d

  pub lookup-modify_self :
      (k : ℕ) (f : V → V) (d : Table V) (v : V)
      → lookup k d ≡ some v
      → lookup k (modify k f d) ≡ some (f v)
  unfolding lookup modify
  lookup-modify_self k f [] v h = ground arith
  lookup-modify_self k f ((j, w) ∷ d) v h = ground (arith, lookup-modify_self k f d v)

  pub lookup-modify_ne :
      (j k : ℕ) (f : V → V) (d : Table V) → j ≢ k → lookup j (modify k f d) ≡ lookup j d
  unfolding lookup modify
  lookup-modify_ne j k f [] h = refl
  lookup-modify_ne j k f ((i, w) ∷ d) h = ground (arith, lookup-modify_ne j k f d h)

  pub lookup-insert :
      (j k : ℕ) (v : V) (d : Table V)
      → lookup k d ≡ none
      → lookup j (insert k v d) ≡ (if j == k then some v else lookup j d)
  unfolding lookup insert
  lookup-insert j k v [] h = ground arith
  lookup-insert j k v ((i, w) ∷ d) h = ground (arith, lookup-insert j k v d)

  -- A count changes by the row that an update changes.
  pub count-modify :
      (test : V → Bool) (k : ℕ) (f : V → V) (d : Table V) (v : V)
      → lookup k d ≡ some v
      → count test (modify k f d) + one_if (test v) ≡ count test d + one_if (test (f v))
  unfolding lookup modify count
  count-modify test k f [] v h = ground arith
  count-modify test k f ((j, w) ∷ d) v h = ground (arith, count-modify test k f d v)

  pub count-insert :
      (test : V → Bool) (k : ℕ) (v : V) (d : Table V)
      → count test (insert k v d) ≡ count test d + one_if (test v)
  unfolding insert count
  count-insert test k v [] = ground arith
  count-insert test k v ((j, w) ∷ d) = ground (arith, count-insert test k v d)

  pub count-lookup-pos :
      (test : V → Bool) (k : ℕ) (d : Table V) (v : V)
      → lookup k d ≡ some v
      → test v ≡ true
      → 1 ≤ count test d
  unfolding lookup count
  count-lookup-pos test k [] v h t = ground arith
  count-lookup-pos test k ((j, w) ∷ d) v h t = ground (arith, count-lookup-pos test k d v)

  abbrev pub map_some : (V → V) → Option V → Option V
  map_some f none = none
  map_some f (some v) = some (f v)

  pub lookup-modify :
      (j k : ℕ) (f : V → V) (d : Table V)
      → lookup j (modify k f d) ≡ (if j == k then map_some f (lookup j d) else lookup j d)
  unfolding lookup modify
  lookup-modify j k f [] = ground arith
  lookup-modify j k f ((i, w) ∷ d) = ground (arith, lookup-modify j k f d)

  -- `d[k] = v` of a dictionary: the place of an old key is kept.
  unfoldable pub put : ℕ → V → Table V → Table V
  put key new [] = (key, new) ∷ []
  put key new ((j, row) ∷ rows) =
      if key == j then (key, new) ∷ rows else (j, row) ∷ put key new rows

  unfoldable pub has_key : ℕ → Table V → Bool
  has_key key [] = false
  has_key key ((j, row) ∷ rows) = (key == j) || has_key key rows

  unfoldable pub keys_distinct : Table V → Bool
  keys_distinct [] = true
  keys_distinct ((j, row) ∷ rows) = not (has_key j rows) && keys_distinct rows

  pub lookup-put :
      (j k : ℕ) (v : V) (d : Table V)
      → lookup j (put k v d) ≡ (if j == k then some v else lookup j d)
  unfolding lookup put
  lookup-put j k v [] = refl
  lookup-put j k v ((i, w) ∷ d) = ground (arith, lookup-put j k v d)

  pub has_key-put :
      (j k : ℕ) (v : V) (d : Table V) → has_key j (put k v d) ≡ ((j == k) || has_key j d)
  unfolding has_key put
  has_key-put j k v [] = ground arith
  has_key-put j k v ((i, w) ∷ d) = ground (arith, has_key-put j k v d)

  pub keys_distinct-put :
      (k : ℕ) (v : V) (d : Table V) → keys_distinct d ≡ true → keys_distinct (put k v d) ≡ true
  unfolding keys_distinct put has_key
  keys_distinct-put k v [] h = refl
  keys_distinct-put k v ((i, w) ∷ d) h =
      ground (arith, has_key-put i k v d, keys_distinct-put k v d)

  pub has_key-lookup : (j : ℕ) (d : Table V) → has_key j d ≡ is_some (lookup j d)
  unfolding has_key lookup
  has_key-lookup j [] = refl
  has_key-lookup j ((i, w) ∷ d) = ground (arith, has_key-lookup j d)

  -- The first row that passes a test, with its key.
  unfoldable pub find_row : (V → Bool) → Table V → Option (ℕ × V)
  find_row test [] = none
  find_row test ((j, v) ∷ d) = if test v then some (j, v) else find_row test d

  -- Each row with the key passes the test.
  unfoldable pub all_with_key : ℕ → (V → Bool) → Table V → Bool
  all_with_key key test [] = true
  all_with_key key test ((j, v) ∷ d) = (not (key == j) || test v) && all_with_key key test d

  -- Each row passes the test.
  unfoldable pub all_rows : (V → Bool) → Table V → Bool
  all_rows test [] = true
  all_rows test ((j, v) ∷ d) = test v && all_rows test d
