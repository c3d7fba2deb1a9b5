-- ===== src/Auth/Grants.antt =====
-- The roles that `provision_member`, `create_workspace` and `bootstrap` of
-- src/cryptohawk/storage/auth.py give.
use crypto_hawk.Prelude.{
  ℕ, ◌≤◌, Bool, true, false, not, ◌&&◌, ◌||◌, none, some, List, [], ◌∷◌, ◌++◌, Result, ok, ◌≡◌,
  refl, arith, Text, Table, has_key, inl, inr, if◌then◌else◌, ◌==◌, Bool-cases,
}
use crypto_hawk.Auth.Records.{
  AuthDb, UserRecord, WorkspaceRecord, WorkspaceMembershipRecord, Principal, WorkspaceRole, admin,
  owner, role_rank,
}
use crypto_hawk.Auth.Edits.{has_key-insert}
use crypto_hawk.Auth.Members.{
  provision_member, authorize_workspace, add_member, role_in, membership, grantable, add_workspace,
}
use crypto_hawk.Auth.Keys.{is_owner}
use crypto_hawk.Auth.Effects.{provision_member-tables, add_member-tables, add_workspace-tables}

role_in-append :
    (w u : ℕ) (ms : List WorkspaceMembershipRecord) (m : WorkspaceMembershipRecord)
    → role_in w u (ms ++ m ∷ []) ≡ elim (role_in w u ms) [
      | some role ↦ some role
      | none ↦ if (m.workspace_id == w) && (m.user_id == u) then some m.role else none
    ]
unfolding role_in
role_in-append w u [] m = refl
role_in-append w u (k ∷ ms) m = ground (arith, role_in-append w u ms m)

add_member-role :
    (workspace : ℕ) (role : WorkspaceRole) (now : ℕ) (db after : AuthDb)
    (users : Table UserRecord × ℕ) (user : ℕ)
    → add_member workspace role now db users ≡ ok (after, user)
    → (role_in workspace user db.memberships ≡ none)
      × (after.memberships ≡ db.memberships ++ membership workspace user role now ∷ [])
unfolding add_member
add_member-role workspace role now db after (users, u) user e = ground arith

grantable-rank :
    (role caller_role : WorkspaceRole)
    → grantable role caller_role ≡ ok role
    → role_rank role ≤ role_rank caller_role
unfolding grantable
grantable-rank role caller_role e = ground arith

authorized-rank :
    (p : Principal) (workspace : ℕ) (minimum role : WorkspaceRole) (db : AuthDb)
    → authorize_workspace p workspace minimum db ≡ ok role
    → role_rank minimum ≤ role_rank role
unfolding authorize_workspace
authorized-rank p workspace minimum role db e = ground arith

role_in-given :
    (workspace user : ℕ) (role : WorkspaceRole) (now : ℕ) (ms : List WorkspaceMembershipRecord)
    (w u : ℕ)
    → role_in workspace user ms ≡ none
    → role_in w u (ms ++ membership workspace user role now ∷ [])
      ≡ (if (workspace == w) && (user == u) then some role else role_in w u ms)
unfolding membership
role_in-given workspace user role now ms w u missing =
    elim (Bool-cases ((workspace == w) && (user == u))) [
      | inr other ↦
          ground (arith, other, role_in-append w u ms (membership workspace user role now))
      | inl same ↦
          (let k : workspace ≡ w = ground (arith, same) in
            let v : user ≡ u = ground (arith, same) in
            let gone : role_in w u ms ≡ none = rw (← k, ← v) missing in
            ground (arith, same, gone, role_in-append w u ms (membership workspace user role now)))
    ]

-- A call of `provision_member` that returns has a caller who is authorized as an administrator of
-- the workspace, with a role of at least the rank of the one given; the user had no role in the
-- workspace, has the one given after it, and no other role of any user in any workspace changes.
pub provision_member-grants :
    (hash_password : Text → Result Text) (p : Principal) (workspace id : ℕ)
    (email display_name : Text) (role : WorkspaceRole) (password : Text) (now : ℕ) (s t : AuthDb)
    (user w u : ℕ)
    → provision_member hash_password p workspace id email display_name role password now s
      ≡ ok (t, user)
    → (caller_role : WorkspaceRole) × (authorize_workspace p workspace admin s ≡ ok caller_role)
      × (role_rank admin ≤ role_rank caller_role)
      × (role_rank role ≤ role_rank caller_role)
      × (role_in workspace user s.memberships ≡ none)
      × (role_in w u t.memberships
          ≡ (if (workspace == w) && (user == u) then some role else role_in w u s.memberships))
provision_member-grants hash_password p workspace id email display_name role password now s t user w
      u e =
    let (caller_role, users, authorized, given, e1) =
      provision_member-tables hash_password p workspace id email display_name role password now s t
        user e in
    let (missing, eq) = add_member-role workspace role now s t users user e1 in
    (
      caller_role,
      authorized,
      authorized-rank p workspace admin caller_role s authorized,
      grantable-rank role caller_role given,
      missing,
      rw eq (role_in-given workspace user role now s.memberships w u missing),
    )

unfoldable pub has_owner : ℕ → List WorkspaceMembershipRecord → Bool
has_owner w [] = false
has_owner w (m ∷ ms) = (m.workspace_id == w) && is_owner m.role || has_owner w ms

-- Each workspace has a member who owns it.
unfoldable pub IsOwned : AuthDb → Type 0
IsOwned db = (w : ℕ) → (not (has_key w db.workspaces) || has_owner w db.memberships) ≡ true

has_owner-append :
    (w : ℕ) (ms ks : List WorkspaceMembershipRecord)
    → has_owner w (ms ++ ks) ≡ (has_owner w ms || has_owner w ks)
unfolding has_owner
has_owner-append w [] ks = refl
has_owner-append w (m ∷ ms) ks = ground (arith, has_owner-append w ms ks)

pub add_workspace-IsOwned :
    (id : ℕ) (workspace : WorkspaceRecord) (user now : ℕ) (s t : AuthDb)
    → add_workspace id workspace user now s ≡ ok t
    → IsOwned s
    → IsOwned t
unfolding IsOwned membership has_owner
add_workspace-IsOwned id workspace user now s t e h =
    rw (← add_workspace-tables id workspace user now s t e) (λ w. ground (
      arith,
      h w,
      has_key-insert w id workspace s.workspaces,
      has_owner-append w s.memberships (membership id user owner now ∷ []),
    ))

pub add_member-IsOwned :
    (workspace : ℕ) (role : WorkspaceRole) (now : ℕ) (s t : AuthDb) (users : Table UserRecord × ℕ)
    (user : ℕ)
    → add_member workspace role now s users ≡ ok (t, user)
    → IsOwned s
    → IsOwned t
unfolding IsOwned
add_member-IsOwned workspace role now s t users user e h =
    rw (← add_member-tables workspace role now s t users user e) (λ w.
      ground
        (arith, h w, has_owner-append w s.memberships (membership workspace user role now ∷ [])))
