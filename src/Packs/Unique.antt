-- ===== src/Packs/Unique.antt =====
-- The primary key of the versions through `ensure_builtins` of src/cryptohawk/storage/policy.py.
use crypto_hawk.Prelude.{
  ℕ, true, some, List, [], ◌∷◌, ok, ◌≡◌, refl, arith, Text, Table, lookup, insert, has_key,
  has_key-lookup, keys_distinct, find_row, Option-cases, inl, inr, Bool, false,
}
use crypto_hawk.Auth.Edits.{has_key-insert}
use crypto_hawk.Domain.Rules.{CryptoPolicyRules}
use crypto_hawk.Packs.Builtins.{
  PolicyDb, Builtin, builtin_packs, add_if_absent, add_builtin, add_builtins, ensure_builtins,
  assign_default,
}

module _ {V : Type 0} where
  keys_distinct-insert :
      (k : ℕ) (v : V) (d : Table V)
      → keys_distinct d ≡ true
      → has_key k d ≡ false
      → keys_distinct (insert k v d) ≡ true
  unfolding keys_distinct insert has_key
  keys_distinct-insert k v [] h n = refl
  keys_distinct-insert k v ((i, w) ∷ d) h n =
      ground (arith, has_key-insert i k v d, keys_distinct-insert k v d)

  keys_distinct-add_if_absent :
      (k : ℕ) (v : V) (d : Table V)
      → keys_distinct d ≡ true
      → keys_distinct (add_if_absent k v d) ≡ true
  unfolding add_if_absent
  keys_distinct-add_if_absent k v d h = elim (Option-cases (lookup k d)) [
    | inl n ↦
        rw (n, add_if_absent) (keys_distinct-insert k v d h (ground (arith, n, has_key-lookup k d)))
    | inr (w, e) ↦ rw (e, add_if_absent) h
  ]

  has_key-find_row :
      (test : V → Bool) (d : Table V) (k : ℕ) (v : V)
      → find_row test d ≡ some (k, v)
      → has_key k d ≡ true
  unfolding find_row has_key
  has_key-find_row test [] k v f = ground arith
  has_key-find_row test ((i, w) ∷ d) k v f = ground (arith, has_key-find_row test d k v)

  -- The row that a query finds is the row of its key.
  pub lookup-find_row :
      (test : V → Bool) (d : Table V) (k : ℕ) (v : V)
      → keys_distinct d ≡ true
      → find_row test d ≡ some (k, v)
      → lookup k d ≡ some v
  unfolding keys_distinct find_row lookup
  lookup-find_row test [] k v h f = ground arith
  lookup-find_row test ((i, w) ∷ d) k v h f =
      ground (arith, has_key-find_row test d k v, lookup-find_row test d k v)

module _ (stable_id : ℕ → Text → ℕ) (rules_hash : CryptoPolicyRules → Text) where
  keys_distinct-add_builtins :
      (w now : ℕ) (bs : List Builtin) (db : PolicyDb)
      → keys_distinct db.versions ≡ true
      → keys_distinct (add_builtins stable_id rules_hash w now bs db).versions ≡ true
  unfolding add_builtins add_builtin
  keys_distinct-add_builtins w now [] db h = h
  keys_distinct-add_builtins w now (b ∷ bs) db h =
      keys_distinct-add_builtins w now bs (add_builtin stable_id rules_hash w now b db)
        (keys_distinct-add_if_absent _ _ db.versions h)

  pub keys_distinct-ensure_builtins :
      (w now : ℕ) (db after : PolicyDb)
      → keys_distinct db.versions ≡ true
      → ensure_builtins stable_id rules_hash w now db ≡ ok after
      → keys_distinct after.versions ≡ true
  unfolding ensure_builtins assign_default
  keys_distinct-ensure_builtins w now db after h e =
      ground (arith, keys_distinct-add_builtins w now builtin_packs db h)
