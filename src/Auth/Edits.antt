-- ===== src/Auth/Edits.antt =====
-- The changes that a call of src/cryptohawk/storage/auth.py makes to a table of tokens: none, a new
-- row under a new key, or an update of a row.
use crypto_hawk.Prelude.{
  ℕ, Bool, true, false, not, ◌&&◌, ◌||◌, [], ◌∷◌, ◌≡◌, refl, arith, Table, insert, modify, has_key,
  find_row, all_with_key, all_rows, some, none, ◌==◌, Bool-cases, inl, inr,
}

-- `stays` is kept by each update, and `starts` too; a new row satisfies `starts`.
pub data Edit {V : Type 0} (stays starts : V → Bool) (d : Table V) : Table V → Type 0 where
  kept : Edit stays starts d d
  added :
      (id : ℕ) (v : V)
      → has_key id d ≡ false
      → starts v ≡ true
      → Edit stays starts d (insert id v d)
  changed :
      (id : ℕ) (f : V → V)
      → ((v : V) → stays v ≡ true → stays (f v) ≡ true)
      → ((v : V) → starts v ≡ true → starts (f v) ≡ true)
      → Edit stays starts d (modify id f d)

module _ {V : Type 0} where
  pub has_key-insert :
      (j k : ℕ) (v : V) (d : Table V) → has_key j (insert k v d) ≡ (has_key j d || (j == k))
  unfolding has_key insert
  has_key-insert j k v [] = ground arith
  has_key-insert j k v ((i, w) ∷ d) = ground (arith, has_key-insert j k v d)

  has_key-modify : (j k : ℕ) (f : V → V) (d : Table V) → has_key j (modify k f d) ≡ has_key j d
  unfolding has_key modify
  has_key-modify j k f [] = refl
  has_key-modify j k f ((i, w) ∷ d) = ground (arith, has_key-modify j k f d)

  all_with_key-insert :
      (j k : ℕ) (test : V → Bool) (v : V) (d : Table V)
      → all_with_key j test (insert k v d) ≡ (all_with_key j test d && (not (j == k) || test v))
  unfolding all_with_key insert
  all_with_key-insert j k test v [] = ground arith
  all_with_key-insert j k test v ((i, w) ∷ d) = ground (arith, all_with_key-insert j k test v d)

  all_with_key-modify :
      (j k : ℕ) (test : V → Bool) (f : V → V) (d : Table V)
      → ((v : V) → test v ≡ true → test (f v) ≡ true)
      → all_with_key j test d ≡ true
      → all_with_key j test (modify k f d) ≡ true
  unfolding all_with_key modify
  all_with_key-modify j k test f [] keep h = refl
  all_with_key-modify j k test f ((i, w) ∷ d) keep h =
      ground (arith, all_with_key-modify j k test f d keep, keep w)

  all_rows-insert :
      (k : ℕ) (test : V → Bool) (v : V) (d : Table V)
      → all_rows test (insert k v d) ≡ (all_rows test d && test v)
  unfolding all_rows insert
  all_rows-insert k test v [] = ground arith
  all_rows-insert k test v ((i, w) ∷ d) = ground (arith, all_rows-insert k test v d)

  all_rows-modify :
      (k : ℕ) (test : V → Bool) (f : V → V) (d : Table V)
      → ((v : V) → test v ≡ true → test (f v) ≡ true)
      → all_rows test d ≡ true
      → all_rows test (modify k f d) ≡ true
  unfolding all_rows modify
  all_rows-modify k test f [] keep h = refl
  all_rows-modify k test f ((i, w) ∷ d) keep h =
      ground (arith, all_rows-modify k test f d keep, keep w)

  -- There is a row with the key, and all such rows satisfy the test.
  unfoldable pub is_settled : (V → Bool) → ℕ → Table V → Bool
  is_settled test key d = has_key key d && all_with_key key test d

  module _ (stays starts : V → Bool) where
    pub is_settled-Edit :
        (d d' : Table V) (key : ℕ)
        → Edit stays starts d d'
        → is_settled stays key d ≡ true
        → is_settled stays key d' ≡ true
    unfolding is_settled
    is_settled-Edit d d' key kept h = h
    is_settled-Edit d d' key (added id v fresh good) h = elim (Bool-cases (key == id)) [
      | inl same ↦
          (let eq : key ≡ id = ground (arith, same) in
            let clash : has_key key d ≡ false = rw eq fresh in ground (arith, clash))
      | inr other ↦ ground (arith, has_key-insert key id v d, all_with_key-insert key id stays v d)
    ]
    is_settled-Edit d d' key (changed id f keep begin) h =
        ground (arith, has_key-modify key id f d, all_with_key-modify key id stays f d keep)

    pub all_rows-Edit :
        (d d' : Table V)
        → Edit stays starts d d'
        → all_rows starts d ≡ true
        → all_rows starts d' ≡ true
    all_rows-Edit d d' kept h = h
    all_rows-Edit d d' (added id v fresh good) h = ground (arith, all_rows-insert id starts v d)
    all_rows-Edit d d' (changed id f keep begin) h = all_rows-modify id starts f d begin h

  -- A row that is found passes the test of the search, and every test of all rows, or of all with
  -- its key.
  pub find_row-passes :
      (test : V → Bool) (d : Table V) (j : ℕ) (v : V)
      → find_row test d ≡ some (j, v)
      → test v ≡ true
  unfolding find_row
  find_row-passes test [] j v h = ground arith
  find_row-passes test ((i, w) ∷ d) j v h = ground (arith, find_row-passes test d j v)

  pub find_row-all_with_key :
      (test good : V → Bool) (d : Table V) (j : ℕ) (v : V)
      → find_row test d ≡ some (j, v)
      → all_with_key j good d ≡ true
      → good v ≡ true
  unfolding find_row all_with_key
  find_row-all_with_key test good [] j v h a = ground arith
  find_row-all_with_key test good ((i, w) ∷ d) j v h a =
      ground (arith, find_row-all_with_key test good d j v)

  pub find_row-all_rows :
      (test good : V → Bool) (d : Table V) (j : ℕ) (v : V)
      → find_row test d ≡ some (j, v)
      → all_rows good d ≡ true
      → good v ≡ true
  unfolding find_row all_rows
  find_row-all_rows test good [] j v h a = ground arith
  find_row-all_rows test good ((i, w) ∷ d) j v h a =
      ground (arith, find_row-all_rows test good d j v)

  pub find_row-insert :
      (test : V → Bool) (k : ℕ) (v : V) (d : Table V)
      → find_row test d ≡ none
      → test v ≡ true
      → find_row test (insert k v d) ≡ some (k, v)
  unfolding find_row insert
  find_row-insert test k v [] h t = ground arith
  find_row-insert test k v ((i, w) ∷ d) h t = ground (arith, find_row-insert test k v d)
