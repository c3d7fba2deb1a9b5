-- ===== src/Packs/Numbering.antt =====
-- The versions that `create_version` of src/cryptohawk/storage/policy.py adds.
use crypto_hawk.Prelude.{
  ℕ, Bool, true, false, not, ◌&&◌, ◌||◌, none, some, [], ◌∷◌, ok, ◌≡◌, refl, arith, Text, Table,
  lookup, insert, lookup-insert, has_key, has_key-lookup, all_rows, ltb, leb, ◌==◌, if◌then◌else◌,
  Option-cases, inl, inr, sym, Result-cases, Result-cases,
}
use crypto_hawk.Domain.Rules.{CryptoPolicyRules, CryptoPolicyPack, CryptoPolicyVersion}
use crypto_hawk.Packs.Builtins.{PolicyDb}
use crypto_hawk.Packs.Versions.{
  latest_version, next_number, is_unchanged, new_version, add_version, assign, version_of_pack,
  create_version,
}

-- Each version of the policy has a lower number.
unfoldable pub is_above_all : ℕ → ℕ → Table CryptoPolicyVersion → Bool
is_above_all policy number versions =
    all_rows (λ v. not (v.policy_id == policy) || ltb v.version number) versions

is_above_all_mono :
    (policy low high : ℕ) (versions : Table CryptoPolicyVersion)
    → leb low high ≡ true
    → is_above_all policy low versions ≡ true
    → is_above_all policy high versions ≡ true
unfolding is_above_all all_rows
is_above_all_mono policy low high [] l h = refl
is_above_all_mono policy low high ((id, v) ∷ versions) l h =
    ground (arith, is_above_all_mono policy low high versions l)

next_number-cons :
    (policy id : ℕ) (v : CryptoPolicyVersion) (versions : Table CryptoPolicyVersion)
    → let before = next_number (latest_version policy versions) in
      let after = next_number (latest_version policy ((id, v) ∷ versions)) in
      (leb before after ≡ true) × ((not (v.policy_id == policy) || ltb v.version after) ≡ true)
unfolding latest_version
next_number-cons policy id v versions = elim (Option-cases (latest_version policy versions)) [
  | inl n ↦ rw (n, latest_version) (ground arith, ground arith)
  | inr (other, e) ↦ rw (e, latest_version) (ground arith, ground arith)
]

is_above_all-cons :
    (policy number id : ℕ) (v : CryptoPolicyVersion) (versions : Table CryptoPolicyVersion)
    → is_above_all policy number ((id, v) ∷ versions) ≡ (
        (not (v.policy_id == policy) || ltb v.version number)
        && is_above_all policy number versions)
unfolding is_above_all all_rows
is_above_all-cons policy number id v versions = refl

is_above_all-next_number :
    (policy : ℕ) (versions : Table CryptoPolicyVersion)
    → is_above_all policy (next_number (latest_version policy versions)) versions ≡ true
unfolding is_above_all all_rows
is_above_all-next_number policy [] = refl
is_above_all-next_number policy ((id, v) ∷ versions) =
    let before = next_number (latest_version policy versions) in
    let after = next_number (latest_version policy ((id, v) ∷ versions)) in
    let step = next_number-cons policy id v versions in
    let rest =
      is_above_all_mono policy before after versions step.0
        (is_above_all-next_number policy versions) in
    rw (is_above_all-cons policy after id v versions, step.1, rest) refl

absent_lookup :
    (id : ℕ) (versions : Table CryptoPolicyVersion)
    → has_key id versions ≡ false
    → lookup id versions ≡ none
absent_lookup id versions h = ground (arith, has_key-lookup id versions)

add_version-tables :
    (activated : Bool) (v : CryptoPolicyVersion) (by : Text) (now : ℕ) (db after : PolicyDb)
    → add_version activated v by now db ≡ ok after
    → (has_key v.id db.versions ≡ false)
      × (insert v.id v db.versions ≡ after.versions)
      × (db.packs ≡ after.packs)
unfolding add_version assign
add_version-tables activated v by now db after e = ground arith

module _ (stable_id : ℕ → Text → ℕ) (rules_hash : CryptoPolicyRules → Text) where
  version_of_pack-tables :
      (activated : Bool) (id workspace policy : ℕ) (rules : CryptoPolicyRules) (by : Text) (now : ℕ)
      (pack : CryptoPolicyPack) (db after : PolicyDb) (new : CryptoPolicyVersion)
      → version_of_pack stable_id rules_hash activated id workspace policy rules by now pack db
        ≡ ok (after, new)
      → let latest = latest_version policy db.versions in
        let number = next_number latest in
        ((pack.workspace_id == workspace) ≡ true)
        × (pack.built_in ≡ false)
        × (is_unchanged (rules_hash rules) latest ≡ false)
        × (new ≡ new_version id policy workspace number rules (rules_hash rules) by now)
        × (add_version activated new by now db ≡ ok after)
  unfolding version_of_pack
  version_of_pack-tables activated id workspace policy rules by now pack db after new e =
      let latest = latest_version policy db.versions in
      let v =
        new_version id policy workspace (next_number latest) rules (rules_hash rules) by now in
      elim (Result-cases (add_version activated v by now db)) [
        | inr (x, bad) ↦ ground (arith, bad, e)
        | inl (made, fine) ↦
            (let a : made ≡ after = ground (arith, fine, e) in
              let b : v ≡ new = ground (arith, fine, e) in
              (
                ground (arith, fine, e),
                ground (arith, fine, e),
                ground (arith, fine, e),
                sym b,
                rw (← a, ← b) fine,
              ))
      ]

  -- A call of `create_version` that returns is for a pack of the workspace that is not built in; the
  -- new version has a number above all versions of the policy and rules with another hash than the
  -- latest of them, it is stored under its identifier, and every other version is as before.
  pub create_version-next :
      (activated : Bool) (id workspace policy : ℕ) (rules : CryptoPolicyRules) (by : Text) (now : ℕ)
      (db after : PolicyDb) (new : CryptoPolicyVersion) (j : ℕ)
      → create_version stable_id rules_hash activated id workspace policy rules by now db
        ≡ ok (after, new)
      → (pack : CryptoPolicyPack) × (lookup policy db.packs ≡ some pack)
        × ((pack.workspace_id == workspace) ≡ true)
        × (pack.built_in ≡ false)
        × (is_above_all policy new.version db.versions ≡ true)
        × (is_unchanged new.rules_hash (latest_version policy db.versions) ≡ false)
        × (lookup j after.versions ≡ (if j == id then some new else lookup j db.versions))
  unfolding create_version new_version
  create_version-next activated id workspace policy rules by now db after new j e =
      elim (Option-cases (lookup policy db.packs)) [
        | inl missing ↦ ground (arith, missing, e)
        | inr (pack, found) ↦
            (let parts =
                version_of_pack-tables activated id workspace policy rules by now pack db after new
                  (ground (arith, found, e)) in
              let tables = add_version-tables activated new by now db after parts.4 in
              let same_id : new.id ≡ id = rw (parts.3) refl in
              let stored =
                lookup-insert j new.id new db.versions
                  (absent_lookup new.id db.versions tables.0) in
              (
                pack,
                found,
                parts.0,
                parts.1,
                rw (parts.3) (is_above_all-next_number policy db.versions),
                rw (parts.3) parts.2,
                rw (← tables.1, ← same_id) stored,
              ))
      ]
