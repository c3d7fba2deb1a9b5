-- ===== src/Auth/Revoked.antt =====
-- Tokens that are revoked, and the limits of API keys, at `authenticate` and `authorize_workspace` of
-- src/cryptohawk/storage/auth.py.
use crypto_hawk.Prelude.{
  ℕ, Bool, true, false, [], ◌∷◌, ◌≡◌, refl, arith, Table, modify, has_key, keys_distinct,
  all_with_key, all_rows, Bool-cases, inl, inr, ◌==◌,
}
use crypto_hawk.Auth.Records.{AuthDb, PrincipalKind, session, api_key}
use crypto_hawk.Auth.Edits.{is_settled, is_settled-Edit, all_rows-Edit}
use crypto_hawk.Auth.Calls.{Library, Calls, none_yet, then_call}
use crypto_hawk.Auth.Tables.{TokenEdits, is_revoked_session, is_revoked_key, is_any, is_limited}
use crypto_hawk.Auth.Steady.{Call-edit}

abbrev pub is_session : PrincipalKind → Bool
is_session session = true
is_session api_key = false

module _ {V : Type 0} where
  all_with_key-absent :
      (j : ℕ) (test : V → Bool) (d : Table V) → has_key j d ≡ false → all_with_key j test d ≡ true
  unfolding has_key all_with_key
  all_with_key-absent j test [] h = refl
  all_with_key-absent j test ((i, w) ∷ d) h = ground (arith, all_with_key-absent j test d)

  -- An update that makes the test hold settles the row.
  pub is_settled-modify :
      (j : ℕ) (test : V → Bool) (f : V → V) (d : Table V)
      → ((v : V) → test (f v) ≡ true)
      → keys_distinct d ≡ true
      → has_key j d ≡ true
      → is_settled test j (modify j f d) ≡ true
  unfolding is_settled modify has_key all_with_key keys_distinct
  is_settled-modify j test f [] makes u h = ground arith
  is_settled-modify j test f ((i, w) ∷ d) makes u h = elim (Bool-cases (j == i)) [
    | inl same ↦
        (let eq : j ≡ i = ground (arith, same) in
          let absent : has_key j d ≡ false = rw eq (ground (arith, u)) in
          ground (arith, same, makes w, all_with_key-absent j test d absent))
    | inr other ↦ ground (arith, other, u, h, is_settled-modify j test f d makes)
  ]

module _ (l : Library) where
  pub settled_sessions :
      (s t : AuthDb) (id : ℕ)
      → Calls l s t
      → is_settled is_revoked_session id s.sessions ≡ true
      → is_settled is_revoked_session id t.sessions ≡ true
  unfolding TokenEdits
  settled_sessions s t id none_yet h = h
  settled_sessions s t id (then_call {t = m} before call) h =
      is_settled-Edit is_revoked_session is_any m.sessions t.sessions id (Call-edit l m t call).0
        (settled_sessions s m id before h)

  pub settled_keys :
      (s t : AuthDb) (id : ℕ)
      → Calls l s t
      → is_settled is_revoked_key id s.api_keys ≡ true
      → is_settled is_revoked_key id t.api_keys ≡ true
  unfolding TokenEdits
  settled_keys s t id none_yet h = h
  settled_keys s t id (then_call {t = m} before call) h =
      is_settled-Edit is_revoked_key is_limited m.api_keys t.api_keys id (Call-edit l m t call).1
        (settled_keys s m id before h)

  pub limited_keys :
      (s t : AuthDb)
      → Calls l s t
      → all_rows is_limited s.api_keys ≡ true
      → all_rows is_limited t.api_keys ≡ true
  unfolding TokenEdits
  limited_keys s t none_yet h = h
  limited_keys s t (then_call {t = m} before call) h =
      all_rows-Edit is_revoked_key is_limited m.api_keys t.api_keys (Call-edit l m t call).1
        (limited_keys s m before h)
