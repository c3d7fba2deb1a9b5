-- ===== src/Packs/Ready.antt =====
-- The tables that `ensure_builtins` of src/cryptohawk/storage/policy.py leaves.
use crypto_hawk.Prelude.{
  ℕ, Bool, true, not, ◌&&◌, ◌||◌, List, [], ◌∷◌, ok, err, ◌≡◌, refl, arith, Text, Table, lookup,
  has_key, has_key-put, has_key-lookup, member, ◌==◌, if◌then◌else◌, Option-cases, inl, inr,
  &&-eq_true, lookup_error,
}
use crypto_hawk.Auth.Edits.{has_key-insert}
use crypto_hawk.Domain.Rules.{CryptoPolicyRules}
use crypto_hawk.Packs.Builtins.{
  PolicyDb, Builtin, builtin_packs, add_if_absent, pack_id, version_id, add_builtin, add_builtins,
  assign_default, ensure_builtins,
}
use crypto_hawk.Packs.Versions.{assign}

module _ {V : Type 0} where
  has_key-add_if_absent :
      (j k : ℕ) (v : V) (d : Table V) → has_key j (add_if_absent k v d) ≡ (has_key j d || (j == k))
  unfolding add_if_absent
  has_key-add_if_absent j k v d = elim (Option-cases (lookup k d)) [
    | inl n ↦ rw (n, add_if_absent) (has_key-insert j k v d)
    | inr (w, e) ↦ rw (e, add_if_absent) (ground (arith, e, has_key-lookup k d, has_key-lookup j d))
  ]

  add_if_absent-present :
      (k : ℕ) (v : V) (d : Table V) → has_key k d ≡ true → add_if_absent k v d ≡ d
  unfolding add_if_absent
  add_if_absent-present k v d h = elim (Option-cases (lookup k d)) [
    | inl n ↦ ground (arith, n, h, has_key-lookup k d)
    | inr (w, e) ↦ rw (e, add_if_absent) refl
  ]

ensured :
    (b : Bool) (made after : PolicyDb)
    → (if b then ok made else err lookup_error) ≡ ok after
    → (b ≡ true) × (made ≡ after)
ensured b made after e = ground arith

module _ (stable_id : ℕ → Text → ℕ) (rules_hash : CryptoPolicyRules → Text) where
  unfoldable pub all_present : ℕ → List Builtin → PolicyDb → Bool
  all_present workspace [] db = true
  all_present workspace (b ∷ bs) db =
      (has_key (pack_id stable_id rules_hash workspace b.slug) db.packs
        && has_key (version_id stable_id rules_hash workspace b.slug) db.versions)
      && all_present workspace bs db

  add_builtin-keys :
      (w now : ℕ) (b : Builtin) (db : PolicyDb) (j : ℕ)
      → (has_key j (add_builtin stable_id rules_hash w now b db).packs
          ≡ (has_key j db.packs || (j == pack_id stable_id rules_hash w b.slug)))
        × (has_key j (add_builtin stable_id rules_hash w now b db).versions
            ≡ (has_key j db.versions || (j == version_id stable_id rules_hash w b.slug)))
  unfolding add_builtin
  add_builtin-keys w now b db j =
      (has_key-add_if_absent j _ _ db.packs, has_key-add_if_absent j _ _ db.versions)

  add_builtins-keys :
      (w now : ℕ) (bs : List Builtin) (db : PolicyDb) (j : ℕ)
      → ((not (has_key j db.packs)
            || has_key j (add_builtins stable_id rules_hash w now bs db).packs)
          ≡ true)
        × ((not (has_key j db.versions)
              || has_key j (add_builtins stable_id rules_hash w now bs db).versions)
            ≡ true)
  unfolding add_builtins
  add_builtins-keys w now [] db j = (ground arith, ground arith)
  add_builtins-keys w now (b ∷ bs) db j = ground (
    arith,
    add_builtins-keys w now bs (add_builtin stable_id rules_hash w now b db) j,
    add_builtin-keys w now b db j,
  )

  all_present-add_builtins :
      (w now : ℕ) (bs : List Builtin) (db : PolicyDb)
      → all_present w bs (add_builtins stable_id rules_hash w now bs db) ≡ true
  unfolding all_present add_builtins
  all_present-add_builtins w now [] db = refl
  all_present-add_builtins w now (b ∷ bs) db =
      let one = add_builtin stable_id rules_hash w now b db in
      let p = pack_id stable_id rules_hash w b.slug in
      let v = version_id stable_id rules_hash w b.slug in
      ground (
        arith,
        all_present-add_builtins w now bs one,
        add_builtins-keys w now bs one p,
        add_builtins-keys w now bs one v,
        add_builtin-keys w now b db p,
        add_builtin-keys w now b db v,
      )

  add_builtins-present :
      (w now : ℕ) (bs : List Builtin) (db : PolicyDb)
      → all_present w bs db ≡ true
      → add_builtins stable_id rules_hash w now bs db ≡ db
  unfolding all_present add_builtins add_builtin
  add_builtins-present w now [] db h = refl
  add_builtins-present w now (b ∷ bs) db h =
      rw
        (
          add_if_absent-present (pack_id stable_id rules_hash w b.slug) _ db.packs
              (ground (arith, h)),
          add_if_absent-present (version_id stable_id rules_hash w b.slug) _ db.versions
              (ground (arith, h)),
        )
        (add_builtins-present w now bs db (ground (arith, h)))

  -- What `ensure_builtins` leaves.
  unfoldable pub is_ready : ℕ → PolicyDb → Bool
  is_ready w db =
      member w db.workspaces && (all_present w builtin_packs db && has_key w db.assignments)

  ready_parts :
      (w : ℕ) (db : PolicyDb)
      → is_ready w db ≡ true
      → (member w db.workspaces ≡ true)
        × (all_present w builtin_packs db ≡ true)
        × (has_key w db.assignments ≡ true)
  unfolding is_ready
  ready_parts w db h =
      let first =
        &&-eq_true (member w db.workspaces)
          (all_present w builtin_packs db && has_key w db.assignments) h in
      let second = &&-eq_true (all_present w builtin_packs db) (has_key w db.assignments) first.1 in
      (first.0, second.0, second.1)

  ready_from_parts :
      (w : ℕ) (db : PolicyDb)
      → member w db.workspaces ≡ true
      → all_present w builtin_packs db ≡ true
      → has_key w db.assignments ≡ true
      → is_ready w db ≡ true
  unfolding is_ready
  ready_from_parts w db m a k = rw (m, a, k) refl

  assign_default-present :
      (w now : ℕ) (db : PolicyDb)
      → has_key w db.assignments ≡ true
      → assign_default stable_id rules_hash w now db ≡ db
  unfolding assign_default
  assign_default-present w now db h = rw (add_if_absent-present w _ db.assignments h) refl

  pub ensure_builtins-ready :
      (w now : ℕ) (db : PolicyDb)
      → is_ready w db ≡ true
      → ensure_builtins stable_id rules_hash w now db ≡ ok db
  unfolding ensure_builtins
  ensure_builtins-ready w now db h =
      let parts = ready_parts w db h in
      rw
        (
          parts.0,
          add_builtins-present w now builtin_packs db parts.1,
          assign_default-present w now db parts.2,
        )
        refl

  add_builtins-workspaces :
      (w now : ℕ) (bs : List Builtin) (db : PolicyDb)
      → (add_builtins stable_id rules_hash w now bs db).workspaces ≡ db.workspaces
  unfolding add_builtins add_builtin
  add_builtins-workspaces w now [] db = refl
  add_builtins-workspaces w now (b ∷ bs) db =
      add_builtins-workspaces w now bs (add_builtin stable_id rules_hash w now b db)

  all_present-same :
      (w : ℕ) (bs : List Builtin) (db after : PolicyDb)
      → db.packs ≡ after.packs
      → db.versions ≡ after.versions
      → all_present w bs db ≡ all_present w bs after
  unfolding all_present
  all_present-same w [] db after p v = refl
  all_present-same w (b ∷ bs) db after p v = rw (all_present-same w bs db after p v, p, v) refl

  assign_default-ready :
      (w now : ℕ) (db : PolicyDb)
      → member w db.workspaces ≡ true
      → all_present w builtin_packs db ≡ true
      → is_ready w (assign_default stable_id rules_hash w now db) ≡ true
  unfolding assign_default
  assign_default-ready w now db m a =
      let after = assign_default stable_id rules_hash w now db in
      ready_from_parts w after m (rw (← all_present-same w builtin_packs db after refl refl) a)
        (rw (has_key-add_if_absent w w _ db.assignments) (ground arith))

  pub is_ready-ensure_builtins :
      (w now : ℕ) (db after : PolicyDb)
      → ensure_builtins stable_id rules_hash w now db ≡ ok after
      → is_ready w after ≡ true
  unfolding ensure_builtins
  is_ready-ensure_builtins w now db after e =
      let added = add_builtins stable_id rules_hash w now builtin_packs db in
      let (there, eq) =
        ensured (member w db.workspaces) (assign_default stable_id rules_hash w now added) after
          e in
      rw (← eq) (
        assign_default-ready w now added (rw (add_builtins-workspaces w now builtin_packs db) there)
          (all_present-add_builtins w now builtin_packs db))

  pub is_ready-assign :
      (w version : ℕ) (by : Text) (now : ℕ) (db : PolicyDb)
      → is_ready w db ≡ true
      → is_ready w (assign w version by now db) ≡ true
  unfolding assign
  is_ready-assign w version by now db h =
      let parts = ready_parts w db h in
      ready_from_parts w (assign w version by now db) parts.0
        (rw (← all_present-same w builtin_packs db (assign w version by now db) refl refl) parts.1)
        (rw (has_key-put w w _ db.assignments) (ground arith))
