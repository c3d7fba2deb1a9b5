-- ===== src/Packs/Versions.antt =====
-- `create_pack`, `create_version`, `activate` and `effective_policy` of
-- src/cryptohawk/storage/policy.py.
use crypto_hawk.Prelude.{
  ℕ, ◌+◌, Bool, false, not, ◌&&◌, ◌||◌, Option, none, some, [], ◌∷◌, Result, ok, err, ◌>>=◌,
  value_error, lookup_error, runtime_error, Text, strip, lower, take, text_eq, Table, lookup,
  insert, put, find_row, has_key, is_some, ltb, ◌==◌, if◌then◌else◌,
}
use crypto_hawk.Store.{is_blank}
use crypto_hawk.Auth.{is_slug}
use crypto_hawk.Domain.Rules.{
  CryptoPolicyRules, CryptoPolicyPack, CryptoPolicyVersion, EffectiveCryptoPolicy,
}
use crypto_hawk.Packs.Builtins.{PolicyDb, ensure_builtins}

-- `created_by.strip()[:200]`
unfoldable pub signature : Text → Text
signature name = take 200 (strip name)

unfoldable pub assign : ℕ → ℕ → Text → ℕ → PolicyDb → PolicyDb
assign workspace version by now db = record db {
  assignments =
      put workspace
        (record { policy_version_id = version; assigned_by = signature by; assigned_at = now })
        db.assignments;
}

-- The version of the policy with the highest number.
unfoldable pub latest_version : ℕ → Table CryptoPolicyVersion → Option CryptoPolicyVersion
latest_version policy [] = none
latest_version policy ((id, v) ∷ rest) = elim (latest_version policy rest) [
  | none ↦ if v.policy_id == policy then some v else none
  | some other ↦
      if (v.policy_id == policy) && not (ltb v.version other.version) then some v else some other
]

-- `(latest.version if latest else 0) + 1`
abbrev pub next_number : Option CryptoPolicyVersion → ℕ
next_number none = 1
next_number (some v) = v.version + 1

unfoldable pub is_unchanged : Text → Option CryptoPolicyVersion → Bool
is_unchanged hash none = false
is_unchanged hash (some v) = text_eq v.rules_hash hash

unfoldable pub new_version :
    ℕ → ℕ → ℕ → ℕ → CryptoPolicyRules → Text → Text → ℕ → CryptoPolicyVersion
new_version id policy workspace number rules hash by now = record {
  id = id;
  policy_id = policy;
  workspace_id = workspace;
  version = number;
  rules = rules;
  rules_hash = hash;
  created_by = signature by;
  created_at = now;
}

-- The version is added, and activated when that is asked for.
unfoldable pub add_version : Bool → CryptoPolicyVersion → Text → ℕ → PolicyDb → Result PolicyDb
add_version activated v by now db =
    let added = record db { versions = insert v.id v db.versions } in
    if has_key v.id db.versions
    then err value_error
    else ok (if activated then assign v.workspace_id v.id by now added else added)

-- The version that is assigned, with its pack; each must be there, the pack in the workspace.
unfoldable pub policy_in_effect : ℕ → PolicyDb → Result (PolicyDb × EffectiveCryptoPolicy)
policy_in_effect workspace db = elim (lookup workspace db.assignments) [
  | none ↦ err runtime_error
  | some a ↦ elim (lookup a.policy_version_id db.versions) [
    | none ↦ err runtime_error
    | some v ↦ elim (lookup v.policy_id db.packs) [
      | none ↦ err runtime_error
      | some p ↦
          if p.workspace_id == workspace
          then ok (
            db,
            record {
              pack = p;
              version = v;
              assigned_by = a.assigned_by;
              assigned_at = a.assigned_at;
            },
          )
          else err runtime_error
    ]
  ]
]

module _ (stable_id : ℕ → Text → ℕ) (rules_hash : CryptoPolicyRules → Text) where
  unfoldable pub effective_policy : ℕ → ℕ → PolicyDb → Result (PolicyDb × EffectiveCryptoPolicy)
  effective_policy workspace now db =
      ensure_builtins stable_id rules_hash workspace now db
      >>= (λ after. policy_in_effect workspace after)

  -- The version of the number is assigned.
  unfoldable pub activate_version :
      ℕ → ℕ → ℕ → Text → ℕ → PolicyDb → Result (PolicyDb × EffectiveCryptoPolicy)
  activate_version workspace policy number by now ready =
      elim (find_row
        (λ v. (v.workspace_id == workspace) && ((v.policy_id == policy) && (v.version == number)))
        ready.versions) [
          | none ↦ err lookup_error
          | some found ↦ effective_policy workspace now (assign workspace found.0 by now ready)
        ]

  unfoldable pub activate :
      ℕ → ℕ → ℕ → Text → ℕ → PolicyDb → Result (PolicyDb × EffectiveCryptoPolicy)
  activate workspace policy number by now db =
      if is_blank by
      then err value_error
      else ensure_builtins stable_id rules_hash workspace now db
        >>= activate_version workspace policy number by now

  -- The version of a pack that is not built in, with the next number and other rules.
  unfoldable pub version_of_pack :
      Bool
      → ℕ
      → ℕ
      → ℕ
      → CryptoPolicyRules
      → Text
      → ℕ
      → CryptoPolicyPack
      → PolicyDb
      → Result (PolicyDb × CryptoPolicyVersion)
  version_of_pack activated id workspace policy rules by now pack db =
      let latest = latest_version policy db.versions in
      let v =
        new_version id policy workspace (next_number latest) rules (rules_hash rules) by now in
      if not (pack.workspace_id == workspace)
      then err lookup_error
      else if pack.built_in
      then err value_error
      else if is_unchanged (rules_hash rules) latest
      then err value_error
      else add_version activated v by now db >>= (λ after. ok (after, v))

  unfoldable pub create_version :
      Bool
      → ℕ
      → ℕ
      → ℕ
      → CryptoPolicyRules
      → Text
      → ℕ
      → PolicyDb
      → Result (PolicyDb × CryptoPolicyVersion)
  create_version activated id workspace policy rules by now db =
      if is_blank by then err value_error else elim (lookup policy db.packs) [
        | none ↦ err lookup_error
        | some pack ↦ version_of_pack activated id workspace policy rules by now pack db
      ]

  -- The rows of a new pack and its first version.
  unfoldable pub add_pack : CryptoPolicyPack → PolicyDb → Result PolicyDb
  add_pack p db =
      if has_key p.id db.packs
        || is_some
            (find_row (λ q. (q.workspace_id == p.workspace_id) && text_eq q.slug p.slug) db.packs)
      then err value_error
      else ok (record db { packs = insert p.id p db.packs })

  unfoldable pub create_pack :
      Bool
      → ℕ
      → ℕ
      → ℕ
      → Text
      → Text
      → Text
      → CryptoPolicyRules
      → Text
      → ℕ
      → PolicyDb
      → Result PolicyDb
  create_pack activated policy id workspace slug name description rules by now db =
      let p : CryptoPolicyPack = record {
        id = policy;
        workspace_id = workspace;
        slug = lower (strip slug);
        name = take 200 (strip name);
        description = strip description;
        built_in = false;
        created_by = signature by;
        created_at = now;
      } in
      let v = new_version id policy workspace 1 rules (rules_hash rules) by now in
      if not (is_slug (lower (strip slug))) || (is_blank name || is_blank by)
      then err value_error
      else (do
        ready ← ensure_builtins stable_id rules_hash workspace now db
        packed ← add_pack p ready
        add_version activated v by now packed)
