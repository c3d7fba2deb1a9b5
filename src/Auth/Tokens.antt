-- ===== src/Auth/Tokens.antt =====
-- A session from its creation by `create_session` to `authenticate`
-- (src/cryptohawk/storage/auth.py).
use crypto_hawk.Prelude.{
  ℕ, ◌+◌, true, false, none, ◌++◌, ok, err, permission_error, ◌≡◌, arith, Text, codes, starts_with,
  lookup, insert, modify, find_row, has_key, leb, ◌==◌, if◌then◌else◌,
}
use crypto_hawk.Auth.Records.{AuthDb, IssuedToken}
use crypto_hawk.Auth.Sessions.{
  create_session, authenticate, authenticate_session, new_session, session_principal, use_session,
  is_active_user, hours,
}
use crypto_hawk.Auth.Edits.{find_row-insert}

module _ (digest : Text → ℕ) where
  -- What a session that is created leaves and returns.
  pub create_session-row :
      (id user : ℕ) (random : Text) (session_hours now : ℕ) (db after : AuthDb)
      (issued : IssuedToken)
      → create_session digest id user random session_hours now db ≡ ok (after, issued)
      → let token = codes "chs_" ++ random in
        let expires = now + hours session_hours in
        (issued ≡ record { token = token; expires_at = expires })
        × (after ≡ record db {
          sessions = insert id (new_session user (digest token) now expires) db.sessions;
        })
        × (is_active_user (lookup user db.users) ≡ true)
        × (has_key id db.sessions ≡ false)
        × (find_row (λ s. s.token_hash == digest token) db.sessions ≡ none)
  unfolding create_session
  create_session-row id user random session_hours now db after issued e = ground arith

  -- A token of a session that was created authenticates as the user of the session until the
  -- session expires, and is refused from then on; the session is marked as used.
  pub authenticate-create_session :
      (id user : ℕ) (random : Text) (session_hours now : ℕ) (db after : AuthDb)
      (issued : IssuedToken) (t : ℕ)
      → create_session digest id user random session_hours now db ≡ ok (after, issued)
      → authenticate digest t issued.token after ≡ (
          if leb issued.expires_at t
          then err permission_error
          else ok (
            record after { sessions = modify id (use_session t) after.sessions },
            session_principal id user,
          ))
  unfolding authenticate authenticate_session starts_with new_session
  authenticate-create_session id user random session_hours now db after issued t e =
      let made = create_session-row id user random session_hours now db after issued e in
      let token = codes "chs_" ++ random in
      let row = new_session user (digest token) now (now + hours session_hours) in
      rw (made.0, made.1)
        (rw
          (
            find_row-insert (λ s. s.token_hash == digest token) id row db.sessions made.4
                (ground arith),
            made.2,
          )
          (ground arith))
