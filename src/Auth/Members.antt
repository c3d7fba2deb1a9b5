-- ===== src/Auth/Members.antt =====
-- Memberships of src/cryptohawk/storage/auth.py: `authorize_workspace`, `create_workspace`,
-- `provision_member` and `bootstrap`. The check and the hash of a password are arguments.
use crypto_hawk.Prelude.{
  ℕ, Bool, true, not, ◌&&◌, ◌||◌, Option, none, some, List, [], ◌∷◌, ◌++◌, Result, ok, err, ◌>>=◌,
  value_error, runtime_error, permission_error, Text, text_eq, Table, lookup, insert, has_key,
  find_row, is_some, leb, ltb, length, ◌==◌, if◌then◌else◌,
}
use crypto_hawk.Auth.Records.{
  AuthDb, UserRecord, WorkspaceRecord, WorkspaceMembershipRecord, IssuedToken, Principal, session,
  api_key, WorkspaceRole, admin, owner, role_rank,
}
use crypto_hawk.Auth.Names.{normalize_email, slugify, is_slug, is_name}
use crypto_hawk.Auth.Sessions.{create_session, is_active_user}

unfoldable pub role_in : ℕ → ℕ → List WorkspaceMembershipRecord → Option WorkspaceRole
role_in workspace user [] = none
role_in workspace user (m ∷ rest) =
    if (m.workspace_id == workspace) && (m.user_id == user)
    then some m.role
    else role_in workspace user rest

-- The role that the principal has in the workspace.
unfoldable pub role_of : Principal → ℕ → AuthDb → Option WorkspaceRole
role_of p workspace db = elim p.kind [
  | api_key ↦ elim p.api_key_workspace_id [
    | none ↦ none
    | some w ↦ if w == workspace then p.api_key_role else none
  ]
  | session ↦ elim p.user_id [ none ↦ none | some user ↦ role_in workspace user db.memberships ]
]

unfoldable pub authorize_workspace : Principal → ℕ → WorkspaceRole → AuthDb → Result WorkspaceRole
authorize_workspace p workspace minimum db = elim (role_of p workspace db) [
  | none ↦ err permission_error
  | some role ↦ if ltb (role_rank role) (role_rank minimum) then err permission_error else ok role
]

abbrev pub slug_or : Option Text → Text → Text
slug_or none name = slugify name
slug_or (some []) name = slugify name
slug_or (some (c ∷ s)) name = c ∷ s

unfoldable pub membership : ℕ → ℕ → WorkspaceRole → ℕ → WorkspaceMembershipRecord
membership workspace user role now = record {
  workspace_id = workspace;
  user_id = user;
  role = role;
  created_at = now;
}

-- `Workspace(name=..., slug=...)`, which checks its fields
unfoldable pub new_workspace : Text → Option Text → ℕ → Result WorkspaceRecord
new_workspace name slug now =
    let chosen = slug_or slug name in
    if is_name name && is_slug chosen
    then ok (record { name = name; slug = chosen; created_at = now })
    else err value_error

-- The primary key and the unique slug.
unfoldable pub is_taken_workspace : ℕ → Text → Table WorkspaceRecord → Bool
is_taken_workspace id slug workspaces =
    has_key id workspaces || is_some (find_row (λ w. text_eq w.slug slug) workspaces)

-- The rows of a new workspace and its owner.
unfoldable pub add_workspace : ℕ → WorkspaceRecord → ℕ → ℕ → AuthDb → Result AuthDb
add_workspace id workspace user now db =
    if is_taken_workspace id workspace.slug db.workspaces
      || is_some (role_in id user db.memberships)
    then err value_error
    else ok (record db {
      workspaces = insert id workspace db.workspaces;
      memberships = db.memberships ++ membership id user owner now ∷ [];
    })

unfoldable pub create_workspace : Principal → ℕ → Text → Option Text → ℕ → AuthDb → Result AuthDb
create_workspace p id name slug now db = elim p.kind [
  | api_key ↦ err permission_error
  | session ↦ elim p.user_id [
    | none ↦ err permission_error
    | some user ↦ do
      workspace ← new_workspace name slug now
      if is_active_user (lookup user db.users)
          then add_workspace id workspace user now db
          else err permission_error
  ]
]

-- `User(email=..., display_name=...)`, which checks its fields
unfoldable pub is_user : Text → Text → Bool
is_user email display_name =
    (leb 3 (length email) && leb (length email) 320)
    && (leb 1 (length display_name) && leb (length display_name) 200)

unfoldable pub new_user : Text → Text → Text → ℕ → Result UserRecord
new_user email display_name password_hash now =
    if is_user email display_name
    then ok (record {
      email = email;
      display_name = display_name;
      password_hash = password_hash;
      active = true;
      created_at = now;
    })
    else err value_error

-- The user of the address, an old one or the new one, and the table with it.
unfoldable pub find_or_add : ℕ → UserRecord → Table UserRecord → Result (Table UserRecord × ℕ)
find_or_add id new users = elim (find_row (λ u. text_eq u.email new.email) users) [
  | some found ↦ ok (users, found.0)
  | none ↦ if has_key id users then err value_error else ok (insert id new users, id)
]

unfoldable pub add_member :
    ℕ → WorkspaceRole → ℕ → AuthDb → Table UserRecord × ℕ → Result (AuthDb × ℕ)
add_member workspace role now db (users, user) =
    if is_some (role_in workspace user db.memberships) || not (has_key workspace db.workspaces)
    then err value_error
    else ok (
      record db {
        users = users;
        memberships = db.memberships ++ membership workspace user role now ∷ [];
      },
      user,
    )

-- A role that the caller may give.
unfoldable pub grantable : WorkspaceRole → WorkspaceRole → Result WorkspaceRole
grantable role caller_role =
    if ltb (role_rank caller_role) (role_rank role) then err permission_error else ok role

unfoldable pub provision_member :
    (Text → Result Text)
    → Principal
    → ℕ
    → ℕ
    → Text
    → Text
    → WorkspaceRole
    → Text
    → ℕ
    → AuthDb
    → Result (AuthDb × ℕ)
provision_member hash_password p workspace id email display_name role password now db = do
  caller_role ← authorize_workspace p workspace admin db
  granted ← grantable role caller_role
  address ← normalize_email email
  password_digest ← hash_password password
  new ← new_user address display_name password_digest now
  users ← find_or_add id new db.users
  add_member workspace granted now db users

-- The rows of the first user, as the owner of a workspace.
unfoldable pub add_first : ℕ → UserRecord → ℕ → WorkspaceRecord → ℕ → AuthDb → Result AuthDb
add_first user row id workspace now db = elim db.users [
  | u ∷ us ↦ err runtime_error
  | [] ↦ add_workspace id workspace user now (record db { users = (user, row) ∷ [] })
]

unfoldable pub first_rows :
    (Text → Result Text)
    → ℕ
    → ℕ
    → Text
    → Text
    → Text
    → Text
    → Option Text
    → ℕ
    → AuthDb
    → Result AuthDb
first_rows hash_password user id email display_name password name slug now db = do
  address ← normalize_email email
  workspace ← new_workspace name slug now
  first ← new_user address display_name [] now
  password_digest ← hash_password password
  add_first user (record first { password_hash = password_digest }) id workspace now db

-- The rows that are committed stay when the session cannot be created.
unfoldable pub first_session :
    (Text → ℕ) → ℕ → ℕ → Text → ℕ → ℕ → AuthDb → Result AuthDb → AuthDb × Result IssuedToken
first_session digest sid user random hours now db (err e) = (db, err e)
first_session digest sid user random hours now db (ok after) =
    elim (create_session digest sid user random hours now after) [
      | err e ↦ (after, err e)
      | ok issued ↦ (issued.0, ok issued.1)
    ]

unfoldable pub bootstrap :
    (Text → ℕ)
    → (Text → Result Text)
    → ℕ
    → ℕ
    → ℕ
    → Text
    → Text
    → Text
    → Text
    → Text
    → Option Text
    → ℕ
    → ℕ
    → AuthDb
    → AuthDb × Result IssuedToken
bootstrap digest hash_password user id sid random email display_name password name slug hours now
      db =
    first_session digest sid user random hours now db
      (first_rows hash_password user id email display_name password name slug now db)
