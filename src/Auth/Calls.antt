-- ===== src/Auth/Calls.antt =====
-- The calls of src/cryptohawk/storage/auth.py, and any sequence of them.
use crypto_hawk.Prelude.{ℕ, Bool, Option, Result, ok, Text, ◌≡◌}
use crypto_hawk.Auth.Records.{AuthDb, IssuedToken, Principal, WorkspaceRole}
use crypto_hawk.Auth.Sessions.{create_session, login, revoke_session, authenticate}
use crypto_hawk.Auth.Members.{create_workspace, provision_member, bootstrap}
use crypto_hawk.Auth.Keys.{create_api_key, revoke_api_key}

-- The functions that the repository calls.
pub record Library : Type 0 where
  pub digest : Text → ℕ
  pub hash_password : Text → Result Text
  pub verify_password : Text → Text → Bool

-- A call that returns, or that commits before it raises, and the tables after it.
pub data Call (l : Library) (s t : AuthDb) : Type 0 where
  bootstraps :
      (user id sid : ℕ) (random email display_name password name : Text) (slug : Option Text)
      (hours now : ℕ)
      → (bootstrap l.digest l.hash_password user id sid random email display_name password name slug
          hours now s).0
        ≡ t
      → Call l s t
  logs_in :
      (id : ℕ) (random : Text) (hours : ℕ) (email password : Text) (now : ℕ) (issued : IssuedToken)
      → login l.digest l.verify_password id random hours email password now s ≡ ok (t, issued)
      → Call l s t
  creates_session :
      (id user : ℕ) (random : Text) (hours now : ℕ) (issued : IssuedToken)
      → create_session l.digest id user random hours now s ≡ ok (t, issued)
      → Call l s t
  revokes_session : (now : ℕ) (p : Principal) → revoke_session now p s ≡ t → Call l s t
  authenticates :
      (now : ℕ) (token : Text) (p : Principal)
      → authenticate l.digest now token s ≡ ok (t, p)
      → Call l s t
  creates_workspace :
      (p : Principal) (id : ℕ) (name : Text) (slug : Option Text) (now : ℕ)
      → create_workspace p id name slug now s ≡ ok t
      → Call l s t
  provisions_member :
      (p : Principal) (workspace id : ℕ) (email display_name : Text) (role : WorkspaceRole)
      (password : Text) (now user : ℕ)
      → provision_member l.hash_password p workspace id email display_name role password now s
        ≡ ok (t, user)
      → Call l s t
  creates_key :
      (p : Principal) (id workspace : ℕ) (name : Text) (role : WorkspaceRole)
      (expires_days : Option ℕ) (random : Text) (now : ℕ) (token : Text)
      → create_api_key l.digest p id workspace name role expires_days random now s ≡ ok (t, token)
      → Call l s t
  revokes_key :
      (p : Principal) (workspace id now : ℕ)
      → revoke_api_key p workspace id now s ≡ ok t
      → Call l s t

pub data Calls (l : Library) (s : AuthDb) : AuthDb → Type 0 where
  none_yet : Calls l s s
  then_call : {t u : AuthDb} → Calls l s t → Call l t u → Calls l s u
