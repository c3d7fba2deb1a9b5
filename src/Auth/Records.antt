-- ===== src/Auth/Records.antt =====
-- The tables of src/cryptohawk/storage/auth.py and the types of src/cryptohawk/domain/auth.py. An
-- identifier, a digest of a token and a time are numbers.
use crypto_hawk.Prelude.{ℕ, Bool, Option, List, Text, Table}

pub data WorkspaceRole : Type 0 where
  viewer analyst admin owner : WorkspaceRole

unfoldable pub role_rank : WorkspaceRole → ℕ
role_rank viewer = 10
role_rank analyst = 20
role_rank admin = 30
role_rank owner = 40

pub data PrincipalKind : Type 0 where
  session api_key : PrincipalKind

pub record Principal : Type 0 where
  pub kind : PrincipalKind
  pub subject_id : ℕ
  pub user_id : Option ℕ
  pub api_key_id : Option ℕ
  pub api_key_workspace_id : Option ℕ
  pub api_key_role : Option WorkspaceRole

pub record WorkspaceRecord : Type 0 where
  pub name : Text
  pub slug : Text
  pub created_at : ℕ

pub record UserRecord : Type 0 where
  pub email : Text
  pub display_name : Text
  pub password_hash : Text
  pub active : Bool
  pub created_at : ℕ

pub record WorkspaceMembershipRecord : Type 0 where
  pub workspace_id : ℕ
  pub user_id : ℕ
  pub role : WorkspaceRole
  pub created_at : ℕ

pub record SessionRecord : Type 0 where
  pub user_id : ℕ
  pub token_hash : ℕ
  pub created_at : ℕ
  pub expires_at : ℕ
  pub last_used_at : Option ℕ
  pub revoked_at : Option ℕ

pub record ApiKeyRecord : Type 0 where
  pub workspace_id : ℕ
  pub name : Text
  pub prefix : Text
  pub token_hash : ℕ
  pub role : WorkspaceRole
  pub created_by_user_id : Option ℕ
  pub created_at : ℕ
  pub expires_at : Option ℕ
  pub last_used_at : Option ℕ
  pub revoked_at : Option ℕ

pub record AuthDb : Type 0 where
  pub users : Table UserRecord
  pub workspaces : Table WorkspaceRecord
  pub memberships : List WorkspaceMembershipRecord
  pub sessions : Table SessionRecord
  pub api_keys : Table ApiKeyRecord

-- The token, and when it expires.
pub record IssuedToken : Type 0 where
  pub token : Text
  pub expires_at : ℕ
