-- ===== src/Packs/Effective.antt =====
-- The policy in effect after `activate` of src/cryptohawk/storage/policy.py.
use crypto_hawk.Auth.Edits.{find_row-passes}
use crypto_hawk.Packs.Unique.{lookup-find_row, keys_distinct-ensure_builtins}
use crypto_hawk.Prelude.{
  ℕ, true, ◌&&◌, some, ok, ◌≡◌, refl, arith, Text, lookup, lookup-put, find_row, ◌==◌, Option-cases,
  Bool-cases, inl, inr, bind-ok, sym, ap, ◌∙◌, keys_distinct, Bool,
}
use crypto_hawk.Store.{is_blank}
use crypto_hawk.Domain.Rules.{CryptoPolicyRules, EffectiveCryptoPolicy, CryptoPolicyVersion}
use crypto_hawk.Packs.Builtins.{PolicyDb, ensure_builtins, WorkspacePolicyAssignmentRecord}
use crypto_hawk.Packs.Versions.{
  assign, signature, effective_policy, policy_in_effect, activate, activate_version,
}
use crypto_hawk.Packs.Ready.{
  is_ready, ensure_builtins-ready, is_ready-ensure_builtins, is_ready-assign,
}

policy_in_effect-parts :
    (w : ℕ) (db after : PolicyDb) (e : EffectiveCryptoPolicy) (a : WorkspacePolicyAssignmentRecord)
    → lookup w db.assignments ≡ some a
    → policy_in_effect w db ≡ ok (after, e)
    → (db ≡ after)
      × (lookup a.policy_version_id db.versions ≡ some e.version)
      × (lookup e.version.policy_id db.packs ≡ some e.pack)
      × (e.assigned_by ≡ a.assigned_by)
      × (e.assigned_at ≡ a.assigned_at)
      × (e.pack.workspace_id ≡ w)
unfolding policy_in_effect
policy_in_effect-parts w db after e a f q =
    elim (Option-cases (lookup a.policy_version_id db.versions)) [
      | inl missing ↦ ground (arith, f, missing, q)
      | inr (v, g) ↦ elim (Option-cases (lookup v.policy_id db.packs)) [
        | inl missing ↦ ground (arith, f, g, missing, q)
        | inr (p, k) ↦ ground (arith, f, g, k, q)
      ]
    ]

assigned_lookup :
    (w version : ℕ) (by : Text) (now : ℕ) (db : PolicyDb)
    → lookup w (assign w version by now db).assignments
      ≡ some (record { policy_version_id = version; assigned_by = signature by; assigned_at = now })
unfolding assign
assigned_lookup w version by now db = ground (
  arith,
  lookup-put w w
      (record { policy_version_id = version; assigned_by = signature by; assigned_at = now })
      db.assignments,
)

module _ (stable_id : ℕ → Text → ℕ) (rules_hash : CryptoPolicyRules → Text) where
  effective_policy-ready :
      (w now : ℕ) (db : PolicyDb)
      → is_ready stable_id rules_hash w db ≡ true
      → effective_policy stable_id rules_hash w now db ≡ policy_in_effect w db
  unfolding effective_policy
  effective_policy-ready w now db h =
      rw (ensure_builtins-ready stable_id rules_hash w now db h) refl

  -- What the call of `activate` for a version promises.
  abbrev pub IsActivated : ℕ → ℕ → ℕ → Text → ℕ → ℕ → PolicyDb → EffectiveCryptoPolicy → Type 0
  IsActivated w policy number by now later after e =
      (effective_policy stable_id rules_hash w later after ≡ ok (after, e))
      × (e.version.workspace_id ≡ w)
      × (e.version.policy_id ≡ policy)
      × (e.version.version ≡ number)
      × (lookup policy after.packs ≡ some e.pack)
      × (e.pack.workspace_id ≡ w)
      × (e.assigned_by ≡ signature by)
      × (e.assigned_at ≡ now)

  is_asked : ℕ → ℕ → ℕ → CryptoPolicyVersion → Bool
  is_asked w policy number v =
      (v.workspace_id == w) && ((v.policy_id == policy) && (v.version == number))

  effective_policy-assign :
      (w policy number key : ℕ) (by : Text) (now later : ℕ) (ready after : PolicyDb)
      (v : CryptoPolicyVersion) (e : EffectiveCryptoPolicy)
      → is_ready stable_id rules_hash w ready ≡ true
      → lookup key ready.versions ≡ some v
      → is_asked w policy number v ≡ true
      → effective_policy stable_id rules_hash w now (assign w key by now ready) ≡ ok (after, e)
      → IsActivated w policy number by now later after e
  unfolding assign is_asked
  effective_policy-assign w policy number key by now later ready after v e r at asked q =
      let assigned = assign w key by now ready in
      let fine = is_ready-assign stable_id rules_hash w key by now ready r in
      let chain : policy_in_effect w assigned ≡ ok (after, e) =
        sym (effective_policy-ready w now assigned fine) ∙ q in
      let (same, version, pack, caller, time, own) =
        policy_in_effect-parts w assigned after e
          (record { policy_version_id = key; assigned_by = signature by; assigned_at = now })
          (assigned_lookup w key by now ready) chain in
      let taken : v ≡ e.version = ground (arith, at, version) in
      (
        rw (← same) (
            effective_policy-ready w later assigned fine
            ∙ (chain ∙ ap (λ d. ok (d, e)) (sym same))),
        ground (arith, taken, asked),
        ground (arith, taken, asked),
        ground (arith, taken, asked),
        ground (arith, taken, asked, pack, same),
        own,
        caller,
        time,
      )

  activate_version-effective :
      (w policy number : ℕ) (by : Text) (now later : ℕ) (ready after : PolicyDb)
      (e : EffectiveCryptoPolicy)
      → keys_distinct ready.versions ≡ true
      → is_ready stable_id rules_hash w ready ≡ true
      → activate_version stable_id rules_hash w policy number by now ready ≡ ok (after, e)
      → IsActivated w policy number by now later after e
  unfolding activate_version is_asked
  activate_version-effective w policy number by now later ready after e unique r q =
      elim (Option-cases (find_row (is_asked w policy number) ready.versions)) [
        | inl missing ↦ ground (arith, missing, q)
        | inr ((key, v), f) ↦
            effective_policy-assign w policy number key by now later ready after v e r
              (lookup-find_row (is_asked w policy number) ready.versions key v unique f)
              (find_row-passes (is_asked w policy number) ready.versions key v f)
              (ground (arith, f, q))
      ]

  -- In tables whose versions have different keys, after a call of `activate` that returns, the policy
  -- in effect is the one that the call returned, at any later time, and reading it changes nothing:
  -- its version is of the workspace and has the policy and the number that were asked for, its pack
  -- is the stored one of that policy and of the workspace, and it was assigned by the caller at the
  -- time of the call.
  pub effective_policy-activate :
      (w policy number : ℕ) (by : Text) (now later : ℕ) (db after : PolicyDb)
      (e : EffectiveCryptoPolicy)
      → keys_distinct db.versions ≡ true
      → activate stable_id rules_hash w policy number by now db ≡ ok (after, e)
      → IsActivated w policy number by now later after e
  unfolding activate
  effective_policy-activate w policy number by now later db after e unique q =
      elim (Bool-cases (is_blank by)) [
        | inl blank ↦ ground (arith, blank, q)
        | inr given ↦
            (let (ready, made, rest) =
                bind-ok (ensure_builtins stable_id rules_hash w now db)
                  (activate_version stable_id rules_hash w policy number by now) (after, e)
                  (ground (arith, given, q)) in
              activate_version-effective w policy number by now later ready after e
                (keys_distinct-ensure_builtins stable_id rules_hash w now db ready unique made)
                (is_ready-ensure_builtins stable_id rules_hash w now db ready made) rest)
      ]
