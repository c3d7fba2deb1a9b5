-- ===== src/Auth/Effects.antt =====
-- What each call of src/cryptohawk/storage/auth.py does to the tables.
use crypto_hawk.Auth.Names.{normalize_email}
use crypto_hawk.Prelude.{
  ℕ, Bool, true, false, Option, none, some, [], ◌∷◌, ◌++◌, Result, ok, err, ◌≡◌, arith, Text, Table,
  lookup, insert, modify, has_key, Option-cases, Result-cases, inl, inr, if◌then◌else◌, bind-ok,
  List-cases, codes, value_error, has_key-lookup,
}
use crypto_hawk.Auth.Records.{
  AuthDb, UserRecord, WorkspaceRecord, SessionRecord, ApiKeyRecord, Principal, WorkspaceRole, owner,
  admin,
}
use crypto_hawk.Auth.Sessions.{
  authenticate_session, authenticate_key, use_session, use_key, key_principal, session_principal,
}
use crypto_hawk.Auth.Members.{
  create_workspace, add_workspace, new_workspace, provision_member, find_or_add, add_member,
  add_first, membership, grantable, authorize_workspace, new_user,
}
use crypto_hawk.Auth.Keys.{
  create_api_key, add_key, revoke_api_key, revoke_key, new_key, is_owner, is_key_request,
}

-- `authenticate` marks a session or a key as used.
pub authenticate_session-tables :
    (now : ℕ) (db after : AuthDb) (o : Option (ℕ × SessionRecord)) (p : Principal)
    → authenticate_session now db o ≡ ok (after, p)
    → record db { sessions = modify p.subject_id (use_session now) db.sessions } ≡ after
unfolding authenticate_session session_principal
authenticate_session-tables now db after none p e = ground arith
authenticate_session-tables now db after (some (id, row)) p e = ground arith

pub authenticate_key-tables :
    (now : ℕ) (db after : AuthDb) (o : Option (ℕ × ApiKeyRecord)) (p : Principal)
    → authenticate_key now db o ≡ ok (after, p)
    → record db { api_keys = modify p.subject_id (use_key now) db.api_keys } ≡ after
unfolding authenticate_key key_principal
authenticate_key-tables now db after none p e = ground arith
authenticate_key-tables now db after (some (id, row)) p e = ground arith

pub add_workspace-tables :
    (id : ℕ) (workspace : WorkspaceRecord) (user now : ℕ) (db after : AuthDb)
    → add_workspace id workspace user now db ≡ ok after
    → record db {
      workspaces = insert id workspace db.workspaces;
      memberships = db.memberships ++ membership id user owner now ∷ [];
    }
      ≡ after
unfolding add_workspace
add_workspace-tables id workspace user now db after e = ground arith

pub create_workspace-tables :
    (p : Principal) (id : ℕ) (name : Text) (slug : Option Text) (now : ℕ) (db after : AuthDb)
    → create_workspace p id name slug now db ≡ ok after
    → (workspace : WorkspaceRecord) × (user : ℕ) × (add_workspace id workspace user now db
        ≡ ok after)
unfolding create_workspace
create_workspace-tables p id name slug now db after e =
    elim (Result-cases (new_workspace name slug now)) [
      | inr (x, bad) ↦ ground (arith, bad)
      | inl (workspace, fine) ↦ elim (Option-cases p.user_id) [
        | inl missing ↦ ground (arith, missing)
        | inr (user, given) ↦ (workspace, user, ground (arith, fine, given))
      ]
    ]

pub add_member-tables :
    (workspace : ℕ) (role : WorkspaceRole) (now : ℕ) (db after : AuthDb)
    (users : Table UserRecord × ℕ) (user : ℕ)
    → add_member workspace role now db users ≡ ok (after, user)
    → record db {
      users = users.0;
      memberships = db.memberships ++ membership workspace user role now ∷ [];
    }
      ≡ after
unfolding add_member
add_member-tables workspace role now db after (users, u) user e = ground arith

grantable-same :
    (role caller_role granted : WorkspaceRole)
    → grantable role caller_role ≡ ok granted
    → role ≡ granted
unfolding grantable
grantable-same role caller_role granted e = ground arith

add_member-granted :
    (role caller_role granted : WorkspaceRole) (workspace now : ℕ) (users : Table UserRecord × ℕ)
    (db after : AuthDb) (user : ℕ)
    → grantable role caller_role ≡ ok granted
    → add_member workspace granted now db users ≡ ok (after, user)
    → (grantable role caller_role ≡ ok role)
      × (add_member workspace role now db users ≡ ok (after, user))
add_member-granted role caller_role granted workspace now users db after user given e =
    let same = grantable-same role caller_role granted given in
    (ground (arith, same, given), rw same e)

-- A member that is provisioned has a role that the caller may give.
pub provision_member-tables :
    (hash_password : Text → Result Text) (p : Principal) (workspace id : ℕ)
    (email display_name : Text) (role : WorkspaceRole) (password : Text) (now : ℕ)
    (db after : AuthDb) (user : ℕ)
    → provision_member hash_password p workspace id email display_name role password now db
      ≡ ok (after, user)
    → (caller_role : WorkspaceRole) × (users : Table UserRecord × ℕ) × (authorize_workspace p
          workspace admin db
        ≡ ok caller_role)
      × (grantable role caller_role ≡ ok role)
      × (add_member workspace role now db users ≡ ok (after, user))
unfolding provision_member
provision_member-tables hash_password p workspace id email display_name role password now db after
      user e =
    let (caller_role, authorized, e1) = bind-ok (authorize_workspace p workspace admin db) _ _ e in
    let (granted, given, e2) = bind-ok (grantable role caller_role) _ _ e1 in
    let (address, a, e3) = bind-ok (normalize_email email) _ _ e2 in
    let (hash, b, e4) = bind-ok (hash_password password) _ _ e3 in
    let (new, c, e5) = bind-ok (new_user address display_name hash now) _ _ e4 in
    let (users, d, e6) = bind-ok (find_or_add id new db.users) _ _ e5 in
    let both =
      add_member-granted role caller_role granted workspace now users db after user given e6 in
    (caller_role, users, authorized, both.0, both.1)

add_key-tables :
    (request : Bool) (id : ℕ) (k : ApiKeyRecord) (db made : AuthDb)
    → (if request then add_key id k db else err value_error) ≡ ok made
    → (request ≡ true)
      × (has_key id db.api_keys ≡ false)
      × (record db { api_keys = insert id k db.api_keys } ≡ made)
unfolding add_key
add_key-tables request id k db made e = ground arith

is_key_request-role :
    (name : Text) (role : WorkspaceRole) (expires_days : Option ℕ)
    → is_key_request name role expires_days ≡ true
    → is_owner role ≡ false
unfolding is_key_request
is_key_request-role name role expires_days e = ground arith

pub create_api_key-tables :
    (digest : Text → ℕ) (p : Principal) (id workspace : ℕ) (name : Text) (role : WorkspaceRole)
    (expires_days : Option ℕ) (random : Text) (now : ℕ) (db after : AuthDb) (token : Text)
    → create_api_key digest p id workspace name role expires_days random now db ≡ ok (after, token)
    → (k : ApiKeyRecord) × (has_key id db.api_keys ≡ false)
      × (is_owner k.role ≡ false)
      × (record db { api_keys = insert id k db.api_keys } ≡ after)
unfolding create_api_key new_key
create_api_key-tables digest p id workspace name role expires_days random now db after token e =
    let (caller_role, authorized, e1) = bind-ok (authorize_workspace p workspace admin db) _ _ e in
    let (granted, given, e2) = bind-ok (grantable role caller_role) _ _ e1 in
    let k = new_key digest p workspace name granted expires_days (codes "chk_" ++ random) now in
    let (made, added, e3) =
      bind-ok
        (if is_key_request name granted expires_days then add_key id k db else err value_error) _ _
        e2 in
    let (asked, fresh, eq) =
      add_key-tables (is_key_request name granted expires_days) id k db made added in
    (k, fresh, is_key_request-role name granted expires_days asked, ground (arith, eq, e3))

pub revoke_api_key-tables :
    (p : Principal) (workspace id now : ℕ) (db after : AuthDb)
    → revoke_api_key p workspace id now db ≡ ok after
    → record db { api_keys = modify id (revoke_key now) db.api_keys } ≡ after
unfolding revoke_api_key
revoke_api_key-tables p workspace id now db after e =
    let (caller_role, authorized, e1) = bind-ok (authorize_workspace p workspace admin db) _ _ e in
    elim (Option-cases (lookup id db.api_keys)) [
      | inl missing ↦ ground (arith, missing, e1)
      | inr (k, found) ↦ ground (arith, found, e1)
    ]

pub add_first-tables :
    (user : ℕ) (row : UserRecord) (id : ℕ) (workspace : WorkspaceRecord) (now : ℕ)
    (db after : AuthDb)
    → add_first user row id workspace now db ≡ ok after
    → (db.users ≡ [])
      × (add_workspace id workspace user now (record db { users = (user, row) ∷ [] }) ≡ ok after)
unfolding add_first
add_first-tables user row id workspace now db after e = elim (List-cases db.users) [
  | inl n ↦ (n, ground (arith, n, e))
  | inr (u, us, n) ↦ ground (arith, n, e)
]

pub revoke_api_key-stored :
    (p : Principal) (workspace id now : ℕ) (db after : AuthDb)
    → revoke_api_key p workspace id now db ≡ ok after
    → has_key id db.api_keys ≡ true
unfolding revoke_api_key
revoke_api_key-stored p workspace id now db after e =
    let (caller_role, authorized, e1) = bind-ok (authorize_workspace p workspace admin db) _ _ e in
    elim (Option-cases (lookup id db.api_keys)) [
      | inl missing ↦ ground (arith, missing, e1)
      | inr (k, found) ↦ ground (arith, found, has_key-lookup id db.api_keys)
    ]
