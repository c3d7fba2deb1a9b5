-- ===== src/Auth/Sessions.antt =====
-- Sessions of src/cryptohawk/storage/auth.py: `login`, `create_session`, `revoke_session` and
-- `authenticate`. The digest of a token (hashlib) and the check of a password are arguments, the
-- random part of a token and a new identifier too.
use crypto_hawk.Prelude.{
  ℕ, ◌+◌, ◌*◌, Bool, false, not, ◌&&◌, ◌||◌, Option, none, some, ◌++◌, Result, ok, err, ◌>>=◌,
  value_error, lookup_error, permission_error, integrity_error, Text, codes, text_eq, starts_with,
  lookup, modify, insert, has_key, find_row, is_some, leb, ◌==◌, if◌then◌else◌,
}
use crypto_hawk.Store.{seconds}
use crypto_hawk.Auth.Records.{
  AuthDb, UserRecord, SessionRecord, ApiKeyRecord, IssuedToken, Principal, session, api_key,
}
use crypto_hawk.Auth.Names.{normalize_email}

-- `timedelta(hours=n)`
abbrev pub hours : ℕ → ℕ
hours n = seconds (n * 3600)

-- `datetime <= now` of a time that may be absent
unfoldable pub is_past : ℕ → Option ℕ → Bool
is_past now none = false
is_past now (some t) = leb t now

-- `session.get(UserRecord, id)` is a user, and active.
unfoldable pub is_active_user : Option UserRecord → Bool
is_active_user none = false
is_active_user (some u) = u.active

unfoldable pub new_session : ℕ → ℕ → ℕ → ℕ → SessionRecord
new_session user digest now expires = record {
  user_id = user;
  token_hash = digest;
  created_at = now;
  expires_at = expires;
  last_used_at = none;
  revoked_at = none;
}

unfoldable pub session_principal : ℕ → ℕ → Principal
session_principal id user = record {
  kind = session;
  subject_id = id;
  user_id = some user;
  api_key_id = none;
  api_key_workspace_id = none;
  api_key_role = none;
}

unfoldable pub key_principal : ℕ → ApiKeyRecord → Principal
key_principal id k = record {
  kind = api_key;
  subject_id = id;
  user_id = none;
  api_key_id = some id;
  api_key_workspace_id = some k.workspace_id;
  api_key_role = some k.role;
}

unfoldable pub use_session : ℕ → SessionRecord → SessionRecord
use_session now s = record s { last_used_at = some now }

unfoldable pub use_key : ℕ → ApiKeyRecord → ApiKeyRecord
use_key now k = record k { last_used_at = some now }

-- What `authenticate` does with the rows that it finds by the digest.
unfoldable pub authenticate_session :
    ℕ → AuthDb → Option (ℕ × SessionRecord) → Result (AuthDb × Principal)
authenticate_session now db none = err permission_error
authenticate_session now db (some (id, row)) =
    if is_some row.revoked_at || leb row.expires_at now
    then err permission_error
    else if is_active_user (lookup row.user_id db.users)
    then ok (
      record db { sessions = modify id (use_session now) db.sessions },
      session_principal id row.user_id,
    )
    else err permission_error

unfoldable pub authenticate_key :
    ℕ → AuthDb → Option (ℕ × ApiKeyRecord) → Result (AuthDb × Principal)
authenticate_key now db none = err permission_error
authenticate_key now db (some (id, row)) =
    if is_some row.revoked_at || is_past now row.expires_at
    then err permission_error
    else ok (record db { api_keys = modify id (use_key now) db.api_keys }, key_principal id row)

unfoldable pub revoke_row : ℕ → SessionRecord → SessionRecord
revoke_row now s = elim s.revoked_at [ none ↦ record s { revoked_at = some now } | some t ↦ s ]

unfoldable pub revoke_session : ℕ → Principal → AuthDb → AuthDb
revoke_session now p db = elim p.kind [
  | api_key ↦ db
  | session ↦ record db { sessions = modify p.subject_id (revoke_row now) db.sessions }
]

module _ (digest : Text → ℕ) where
  unfoldable pub create_session : ℕ → ℕ → Text → ℕ → ℕ → AuthDb → Result (AuthDb × IssuedToken)
  create_session id user random session_hours now db =
      let token = codes "chs_" ++ random in
      let expires = now + hours session_hours in
      let row = new_session user (digest token) now expires in
      if not (leb 1 session_hours && leb session_hours 720)
      then err value_error
      else if not (is_active_user (lookup user db.users))
      then err lookup_error
      else if has_key id db.sessions
          || is_some (find_row (λ s. s.token_hash == digest token) db.sessions)
      then err integrity_error
      else ok (
        record db { sessions = insert id row db.sessions },
        record { token = token; expires_at = expires },
      )

  unfoldable pub authenticate : ℕ → Text → AuthDb → Result (AuthDb × Principal)
  authenticate now token db =
      if starts_with (codes "chs_") token
      then authenticate_session now db (find_row (λ s. s.token_hash == digest token) db.sessions)
      else if starts_with (codes "chk_") token
      then authenticate_key now db (find_row (λ k. k.token_hash == digest token) db.api_keys)
      else err permission_error

  -- `verify_password` is the check of a password by a stored hash.
  unfoldable pub login :
      (Text → Text → Bool) → ℕ → Text → ℕ → Text → Text → ℕ → AuthDb → Result (AuthDb × IssuedToken)
  login verify_password id random session_hours email password now db = do
    address ← normalize_email email
    elim (find_row (λ u. text_eq u.email address) db.users) [
      | none ↦ err permission_error
      | some found ↦
          if found.1.active && verify_password password found.1.password_hash
          then create_session id found.0 random session_hours now db
          else err permission_error
    ]
