-- ===== src/Auth/Refused.antt =====
-- What `authenticate` and `authorize_workspace` of src/cryptohawk/storage/auth.py refuse after any
-- sequence of calls.
use crypto_hawk.Prelude.{
  ℕ, Bool, true, false, not, ◌&&◌, ◌||◌, Option, none, some, Result, ok, err, permission_error, ◌≡◌,
  refl, arith, Text, keys_distinct, has_key, find_row, Bool-cases, inl, inr, ◌⊎◌, starts_with,
  codes, ◌==◌, all_rows, all_with_key, Table,
}
use crypto_hawk.Auth.Records.{
  AuthDb, SessionRecord, ApiKeyRecord, Principal, session, WorkspaceRole, owner, role_rank,
}
use crypto_hawk.Auth.Edits.{is_settled, find_row-all_with_key, find_row-all_rows}
use crypto_hawk.Auth.Sessions.{
  authenticate, authenticate_session, authenticate_key, revoke_session, revoke_row,
  session_principal, key_principal,
}
use crypto_hawk.Auth.Members.{authorize_workspace, role_of}
use crypto_hawk.Auth.Keys.{revoke_api_key, revoke_key}
use crypto_hawk.Auth.Effects.{revoke_api_key-tables, revoke_api_key-stored}
use crypto_hawk.Auth.Calls.{Library, Calls}
use crypto_hawk.Auth.Tables.{
  is_revoked_session, is_revoked_key, is_limited, revoke_row-revoked, revoke_key-revoked,
}
use crypto_hawk.Auth.Revoked.{
  is_session, is_settled-modify, settled_sessions, settled_keys, limited_keys,
}

-- What a row that authenticates is, and the principal that it gives.
abbrev FoundSession : AuthDb → Text → (Text → ℕ) → Principal → Type 0
FoundSession db token digest p =
    (id : ℕ) × (row : SessionRecord) × (find_row (λ s. s.token_hash == digest token) db.sessions
      ≡ some (id, row))
    × (is_revoked_session row ≡ false)
    × (p ≡ session_principal id row.user_id)

abbrev FoundKey : AuthDb → Text → (Text → ℕ) → Principal → Type 0
FoundKey db token digest p =
    (id : ℕ) × (row : ApiKeyRecord) × (find_row (λ k. k.token_hash == digest token) db.api_keys
      ≡ some (id, row))
    × (is_revoked_key row ≡ false)
    × (p ≡ key_principal id row)

authenticate_session-found :
    (now : ℕ) (db after : AuthDb) (o : Option (ℕ × SessionRecord)) (p : Principal)
    → authenticate_session now db o ≡ ok (after, p)
    → (id : ℕ) × (row : SessionRecord) × (o ≡ some (id, row))
      × (is_revoked_session row ≡ false)
      × (p ≡ session_principal id row.user_id)
unfolding authenticate_session is_revoked_session
authenticate_session-found now db after none p e = ground arith
authenticate_session-found now db after (some (id, row)) p e =
    (id, row, refl, ground arith, ground arith)

authenticate_key-found :
    (now : ℕ) (db after : AuthDb) (o : Option (ℕ × ApiKeyRecord)) (p : Principal)
    → authenticate_key now db o ≡ ok (after, p)
    → (id : ℕ) × (row : ApiKeyRecord) × (o ≡ some (id, row))
      × (is_revoked_key row ≡ false)
      × (p ≡ key_principal id row)
unfolding authenticate_key is_revoked_key
authenticate_key-found now db after none p e = ground arith
authenticate_key-found now db after (some (id, row)) p e =
    (id, row, refl, ground arith, ground arith)

authenticate-found :
    (digest : Text → ℕ) (now : ℕ) (token : Text) (db after : AuthDb) (p : Principal)
    → authenticate digest now token db ≡ ok (after, p)
    → FoundSession db token digest p ⊎ FoundKey db token digest p
unfolding authenticate
authenticate-found digest now token db after p e =
    let s = find_row (λ s. s.token_hash == digest token) db.sessions in
    let k = find_row (λ k. k.token_hash == digest token) db.api_keys in
    elim (Bool-cases (starts_with (codes "chs_") token)) [
      | inl chs ↦ inl (authenticate_session-found now db after s p (ground (arith, chs, e)))
      | inr not_chs ↦ elim (Bool-cases (starts_with (codes "chk_") token)) [
        | inl chk ↦ inr (authenticate_key-found now db after k p (ground (arith, not_chs, chk, e)))
        | inr other ↦ ground (arith, not_chs, other, e)
      ]
    ]

settled_parts :
    {V : Type 0} (test : V → Bool) (id : ℕ) (d : Table V)
    → is_settled test id d ≡ true
    → all_with_key id test d ≡ true
unfolding is_settled
settled_parts test id d h = ground arith

refused_session :
    (digest : Text → ℕ) (now : ℕ) (token : Text) (t after : AuthDb) (q : Principal) (id : ℕ)
    → is_settled is_revoked_session id t.sessions ≡ true
    → authenticate digest now token t ≡ ok (after, q)
    → (is_session q.kind && (q.subject_id == id)) ≡ false
unfolding session_principal key_principal
refused_session digest now token t after q id settled e =
    elim (authenticate-found digest now token t after q e) [
      | inr (j, row, f, valid, eq) ↦ rw eq refl
      | inl (j, row, f, valid, eq) ↦ rw eq (elim (Bool-cases (j == id)) [
        | inr other ↦ other
        | inl same ↦
            (let key : j ≡ id = ground (arith, same) in
              let revoked =
                find_row-all_with_key (λ s. s.token_hash == digest token) is_revoked_session
                  t.sessions j row f
                  (rw key (settled_parts is_revoked_session id t.sessions settled)) in
              ground (arith, revoked, valid))
      ])
    ]

refused_key :
    (digest : Text → ℕ) (now : ℕ) (token : Text) (t after : AuthDb) (q : Principal) (id : ℕ)
    → is_settled is_revoked_key id t.api_keys ≡ true
    → authenticate digest now token t ≡ ok (after, q)
    → (not (is_session q.kind) && (q.subject_id == id)) ≡ false
unfolding session_principal key_principal
refused_key digest now token t after q id settled e =
    elim (authenticate-found digest now token t after q e) [
      | inl (j, row, f, valid, eq) ↦ rw eq refl
      | inr (j, row, f, valid, eq) ↦ rw eq (elim (Bool-cases (j == id)) [
        | inr other ↦ other
        | inl same ↦
            (let key : j ≡ id = ground (arith, same) in
              let revoked =
                find_row-all_with_key (λ k. k.token_hash == digest token) is_revoked_key t.api_keys
                  j row f (rw key (settled_parts is_revoked_key id t.api_keys settled)) in
              ground (arith, revoked, valid))
      ])
    ]

settled-revoke_session :
    (now : ℕ) (p : Principal) (s : AuthDb)
    → is_session p.kind ≡ true
    → keys_distinct s.sessions ≡ true
    → has_key p.subject_id s.sessions ≡ true
    → is_settled is_revoked_session p.subject_id (revoke_session now p s).sessions ≡ true
unfolding revoke_session
settled-revoke_session now p s kind u has =
    let k : p.kind ≡ session = ground (arith, kind) in
    rw (k, revoke_session)
      (is_settled-modify p.subject_id is_revoked_session (revoke_row now) s.sessions
        (revoke_row-revoked now) u has)

settled-revoke_api_key :
    (p : Principal) (workspace id now : ℕ) (s t : AuthDb)
    → keys_distinct s.api_keys ≡ true
    → revoke_api_key p workspace id now s ≡ ok t
    → is_settled is_revoked_key id t.api_keys ≡ true
settled-revoke_api_key p workspace id now s t u e =
    rw (← revoke_api_key-tables p workspace id now s t e) (
      is_settled-modify id is_revoked_key (revoke_key now) s.api_keys (revoke_key-revoked now) u
        (revoke_api_key-stored p workspace id now s t e))

-- `PermissionError` is raised.
abbrev pub is_refused : Result WorkspaceRole → Bool
is_refused (err permission_error) = true
is_refused _ = false

key_is_limited :
    (id : ℕ) (row : ApiKeyRecord) (workspace : ℕ) (db : AuthDb)
    → is_limited row ≡ true
    → authorize_workspace (key_principal id row) workspace owner db ≡ err permission_error
unfolding authorize_workspace key_principal role_of is_limited role_rank
key_is_limited id row workspace db h = ground arith

key_is_scoped :
    (id : ℕ) (row : ApiKeyRecord) (workspace : ℕ) (minimum : WorkspaceRole) (db : AuthDb)
    → ((row.workspace_id == workspace)
        || is_refused (authorize_workspace (key_principal id row) workspace minimum db))
      ≡ true
unfolding authorize_workspace key_principal role_of
key_is_scoped id row workspace minimum db = ground arith

module _ (l : Library) where
  -- Once a session whose row is stored is revoked, then after any sequence of calls no token and no
  -- time authenticates as that session. The primary keys of the table are distinct.
  pub authenticate-revoke_session :
      (revoked_at : ℕ) (p : Principal) (s t : AuthDb) (now : ℕ) (token : Text) (after : AuthDb)
      (q : Principal)
      → is_session p.kind ≡ true
      → keys_distinct s.sessions ≡ true
      → has_key p.subject_id s.sessions ≡ true
      → Calls l (revoke_session revoked_at p s) t
      → authenticate l.digest now token t ≡ ok (after, q)
      → (is_session q.kind && (q.subject_id == p.subject_id)) ≡ false
  authenticate-revoke_session revoked_at p s t now token after q kind u has calls =
      refused_session l.digest now token t after q p.subject_id (
        settled_sessions l (revoke_session revoked_at p s) t p.subject_id calls
          (settled-revoke_session revoked_at p s kind u has))

  -- Once an API key is revoked by a call that returns, then after any sequence of calls no token and
  -- no time authenticates as that key. The primary keys of the table are distinct.
  pub authenticate-revoke_api_key :
      (p : Principal) (workspace id revoked_at : ℕ) (s m t : AuthDb) (now : ℕ) (token : Text)
      (after : AuthDb) (q : Principal)
      → keys_distinct s.api_keys ≡ true
      → revoke_api_key p workspace id revoked_at s ≡ ok m
      → Calls l m t
      → authenticate l.digest now token t ≡ ok (after, q)
      → (not (is_session q.kind) && (q.subject_id == id)) ≡ false
  authenticate-revoke_api_key p workspace id revoked_at s m t now token after q u e calls =
      refused_key l.digest now token t after q id
        (settled_keys l m t id calls (settled-revoke_api_key p workspace id revoked_at s m u e))

  -- After any sequence of calls that starts without an API key of an owner's role, a principal that
  -- an API key authenticates is refused whatever needs an owner, in each workspace; and it is
  -- refused whatever role is needed, in each workspace that is not its own.
  pub authorize_workspace-api_key :
      (s t : AuthDb) (now : ℕ) (token : Text) (after : AuthDb) (q : Principal) (workspace : ℕ)
      (minimum : WorkspaceRole)
      → all_rows is_limited s.api_keys ≡ true
      → Calls l s t
      → authenticate l.digest now token t ≡ ok (after, q)
      → is_session q.kind ≡ false
      → (authorize_workspace q workspace owner after ≡ err permission_error)
        × ((own : ℕ) × (q.api_key_workspace_id ≡ some own)
            × ((own == workspace) || is_refused (authorize_workspace q workspace minimum after)
                ≡ true))
  unfolding session_principal key_principal
  authorize_workspace-api_key s t now token after q workspace minimum limited calls e kind =
      elim (authenticate-found l.digest now token t after q e) [
        | inl (j, row, f, valid, eq) ↦ ground (arith, kind, eq)
        | inr (j, row, f, valid, eq) ↦ rw eq (
          key_is_limited j row workspace after (
              find_row-all_rows (λ k. k.token_hash == l.digest token) is_limited t.api_keys j row f
                (limited_keys l s t calls limited)),
          (row.workspace_id, refl, key_is_scoped j row workspace minimum after),
        )
      ]
