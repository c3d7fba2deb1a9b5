-- ===== src/Auth/Keys.antt =====
-- API keys of src/cryptohawk/storage/auth.py: `create_api_key` and `revoke_api_key`.
use crypto_hawk.Prelude.{
  ℕ, ◌+◌, ◌*◌, Bool, true, false, not, ◌&&◌, ◌||◌, Option, none, some, ◌++◌, Result, ok, err, ◌>>=◌,
  value_error, lookup_error, integrity_error, Text, codes, take, lookup, modify, insert, has_key,
  find_row, is_some, leb, ◌==◌, if◌then◌else◌,
}
use crypto_hawk.Store.{seconds}
use crypto_hawk.Auth.Records.{AuthDb, ApiKeyRecord, Principal, WorkspaceRole, admin, owner}
use crypto_hawk.Auth.Names.{is_name}
use crypto_hawk.Auth.Members.{authorize_workspace, grantable}

abbrev pub is_owner : WorkspaceRole → Bool
is_owner owner = true
is_owner _ = false

-- `expires_days is None or 1 <= expires_days <= 3650`
unfoldable pub is_lifetime : Option ℕ → Bool
is_lifetime none = true
is_lifetime (some days) = leb 1 days && leb days 3650

unfoldable pub expiry : Option ℕ → ℕ → Option ℕ
expiry none now = none
expiry (some days) now = some (now + seconds (days * 86400))

unfoldable pub revoke_key : ℕ → ApiKeyRecord → ApiKeyRecord
revoke_key now k = elim k.revoked_at [ none ↦ record k { revoked_at = some now } | some t ↦ k ]

-- The checks of the arguments, of the name in `ApiKeyMetadata`.
unfoldable pub is_key_request : Text → WorkspaceRole → Option ℕ → Bool
is_key_request name role expires_days =
    not (is_owner role) && (is_lifetime expires_days && is_name name)

unfoldable pub new_key :
    (Text → ℕ) → Principal → ℕ → Text → WorkspaceRole → Option ℕ → Text → ℕ → ApiKeyRecord
new_key digest p workspace name role expires_days token now = record {
  workspace_id = workspace;
  name = name;
  prefix = take 16 token;
  token_hash = digest token;
  role = role;
  created_by_user_id = p.user_id;
  created_at = now;
  expires_at = expiry expires_days now;
  last_used_at = none;
  revoked_at = none;
}

unfoldable pub add_key : ℕ → ApiKeyRecord → AuthDb → Result AuthDb
add_key id k db =
    if has_key id db.api_keys
      || is_some (find_row (λ old. old.token_hash == k.token_hash) db.api_keys)
    then err integrity_error
    else ok (record db { api_keys = insert id k db.api_keys })

unfoldable pub create_api_key :
    (Text → ℕ)
    → Principal
    → ℕ
    → ℕ
    → Text
    → WorkspaceRole
    → Option ℕ
    → Text
    → ℕ
    → AuthDb
    → Result (AuthDb × Text)
create_api_key digest p id workspace name role expires_days random now db = do
  caller_role ← authorize_workspace p workspace admin db
  granted ← grantable role caller_role
  let token = codes "chk_" ++ random
  let k = new_key digest p workspace name granted expires_days token now
  after ← if is_key_request name granted expires_days then add_key id k db else err value_error
  ok (after, token)

unfoldable pub revoke_api_key : Principal → ℕ → ℕ → ℕ → AuthDb → Result AuthDb
revoke_api_key p workspace id now db = do
  caller_role ← authorize_workspace p workspace admin db
  elim (lookup id db.api_keys) [
    | none ↦ err lookup_error
    | some k ↦
        if k.workspace_id == workspace
        then ok (record db { api_keys = modify id (revoke_key now) db.api_keys })
        else err lookup_error
  ]
