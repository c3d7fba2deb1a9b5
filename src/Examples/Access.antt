-- ===== src/Examples/Access.antt =====
-- A workspace with an owner, a session and an API key, in the tables of
-- src/cryptohawk/storage/auth.py.
use crypto_hawk.Auth.Tables.{is_limited}
use crypto_hawk.Prelude.{
  ℕ, ◌≤◌, true, false, not, ◌&&◌, ◌||◌, none, some, [], ◌∷◌, ok, err, permission_error, ◌≡◌, refl,
  arith, codes, length, text_eq, modify, lookup, leb, ◌==◌, if◌then◌else◌, has_key, all_rows,
  find_row, insert, keys_distinct, starts_with, lower, strip, rstrip, lstrip, is_space,
  keep_unless_blank, lower_char,
}
use crypto_hawk.Auth.{
  AuthDb, UserRecord, SessionRecord, ApiKeyRecord, IssuedToken, Principal, session, api_key,
  WorkspaceRole, viewer, analyst, admin, owner, role_rank, is_slug, slugify, create_session,
  authenticate, use_session, session_principal, revoke_session, revoke_api_key, authorize_workspace,
  provision_member, role_in, authenticate_key, authenticate_session, is_active_user, is_past,
  key_principal, new_session, revoke_key, revoke_row, role_of, use_key, grantable, normalize_email,
  is_address, is_mail_char, is_address_end, is_domain, add_member, find_or_add, is_user, membership,
  new_user, are_mail_chars, has_inner_dot,
}
use crypto_hawk.Auth.Slugs.{slugify-is_slug}
use crypto_hawk.Auth.Tokens.{authenticate-create_session}
use crypto_hawk.Auth.Calls.{Library, none_yet, then_call, authenticates}
use crypto_hawk.Auth.Revoked.{is_session}
use crypto_hawk.Auth.Refused.{
  authenticate-revoke_session, authenticate-revoke_api_key, authorize_workspace-api_key, is_refused,
}
use crypto_hawk.Auth.Grants.{provision_member-grants, IsOwned, has_owner}
use crypto_hawk.Auth.Owners.{Calls-IsOwned}

abbrev library : Library
library = record {
  digest = λ token. length token;
  hash_password = λ password. ok password;
  verify_password = λ password hash. text_eq password hash;
}

abbrev ann : UserRecord
ann = record {
  email = codes "ann@acme.io";
  display_name = codes "Ann";
  password_hash = codes "secret";
  active = true;
  created_at = 0;
}

abbrev open_session : SessionRecord
open_session = record {
  user_id = 1;
  token_hash = 5;
  created_at = 0;
  expires_at = 1000;
  last_used_at = none;
  revoked_at = none;
}

abbrev admin_key : ApiKeyRecord
admin_key = record {
  workspace_id = 10;
  name = codes "ci";
  prefix = codes "chk_bb";
  token_hash = 6;
  role = admin;
  created_by_user_id = some 1;
  created_at = 0;
  expires_at = none;
  last_used_at = none;
  revoked_at = none;
}

abbrev acme : AuthDb
acme = record {
  users = (1, ann) ∷ [];
  workspaces = (10, record { name = codes "Acme"; slug = codes "acme"; created_at = 0 }) ∷ [];
  memberships = record { workspace_id = 10; user_id = 1; role = owner; created_at = 0 } ∷ [];
  sessions = (20, open_session) ∷ [];
  api_keys = (30, admin_key) ∷ [];
}

abbrev by_session : Principal
by_session = record {
  kind = session;
  subject_id = 20;
  user_id = some 1;
  api_key_id = none;
  api_key_workspace_id = none;
  api_key_role = none;
}

abbrev by_key : Principal
by_key = record {
  kind = api_key;
  subject_id = 30;
  user_id = none;
  api_key_id = some 30;
  api_key_workspace_id = some 10;
  api_key_role = some admin;
}

abbrev session_used : AuthDb
session_used = record acme { sessions = (20, record open_session { last_used_at = some 9 }) ∷ [] }

abbrev key_used : AuthDb
key_used = record acme { api_keys = (30, record admin_key { last_used_at = some 9 }) ∷ [] }

abbrev session_revoked : AuthDb
session_revoked = record acme { sessions = (20, record open_session { revoked_at = some 7 }) ∷ [] }

abbrev key_revoked : AuthDb
key_revoked = record acme { api_keys = (30, record admin_key { revoked_at = some 7 }) ∷ [] }

slugify-is_slug_example : is_slug (slugify (codes "Acme, Inc.")) ≡ true
slugify-is_slug_example = slugify-is_slug (codes "Acme, Inc.")

abbrev issued : IssuedToken
issued = record { token = codes "chs_abcd"; expires_at = 3600000003 }

abbrev second_session : AuthDb
second_session = record acme {
  sessions =
      (20, open_session)
      ∷ (
        21,
        record {
          user_id = 1;
          token_hash = 8;
          created_at = 3;
          expires_at = 3600000003;
          last_used_at = none;
          revoked_at = none;
        },
      )
      ∷ [];
}

authenticate-create_session_example : authenticate library.digest 5 issued.token second_session ≡ (
    if leb issued.expires_at 5
    then err permission_error
    else ok (
      record second_session { sessions = modify 21 (use_session 5) second_session.sessions },
      session_principal 21 1,
    ))
unfolding create_session is_active_user lookup has_key find_row insert new_session
authenticate-create_session_example =
    authenticate-create_session library.digest 21 1 (codes "abcd") 1 3 acme second_session issued 5
      refl

authenticate-revoke_session_example :
    (is_session by_key.kind && (by_key.subject_id == by_session.subject_id)) ≡ false
unfolding keys_distinct has_key authenticate starts_with authenticate_key find_row revoke_session
    is_past modify key_principal revoke_row use_key
authenticate-revoke_session_example =
    authenticate-revoke_session library 7 by_session acme (revoke_session 7 by_session acme) 9
      (codes "chk_bb") (record session_revoked { api_keys = key_used.api_keys }) by_key refl refl
      refl none_yet refl

authenticate-revoke_api_key_example :
    (not (is_session by_session.kind) && (by_session.subject_id == 30)) ≡ false
unfolding keys_distinct has_key revoke_api_key authorize_workspace role_of role_in role_rank lookup
    modify revoke_key authenticate starts_with authenticate_session find_row is_active_user
    use_session session_principal
authenticate-revoke_api_key_example =
    authenticate-revoke_api_key library by_session 10 30 7 acme key_revoked key_revoked 9
      (codes "chs_a") (record key_revoked { sessions = session_used.sessions }) by_session refl refl
      none_yet refl

authorize_workspace-api_key_example :
    (authorize_workspace by_key 11 owner key_used ≡ err permission_error)
    × ((own : ℕ) × (by_key.api_key_workspace_id ≡ some own)
        × (((own == 11) || is_refused (authorize_workspace by_key 11 viewer key_used)) ≡ true))
unfolding all_rows is_limited authenticate starts_with authenticate_key find_row is_past modify
    key_principal use_key
authorize_workspace-api_key_example =
    authorize_workspace-api_key library acme acme 9 (codes "chk_bb") key_used by_key 11 viewer refl
      none_yet refl refl

abbrev with_bob : AuthDb
with_bob = record acme {
  users =
      (1, ann)
      ∷ (
        2,
        record {
          email = codes "bob@acme.io";
          display_name = codes "Bob";
          password_hash = codes "longpassword";
          active = true;
          created_at = 4;
        },
      )
      ∷ [];
  memberships =
      record { workspace_id = 10; user_id = 1; role = owner; created_at = 0 }
      ∷ record { workspace_id = 10; user_id = 2; role = analyst; created_at = 4 }
      ∷ [];
}

provision_member-grants_example :
    (caller_role : WorkspaceRole) × (authorize_workspace by_key 10 admin acme ≡ ok caller_role)
    × (role_rank admin ≤ role_rank caller_role)
    × (role_rank analyst ≤ role_rank caller_role)
    × (role_in 10 2 acme.memberships ≡ none)
    × (role_in 10 1 with_bob.memberships
        ≡ (if (10 == 10) && (2 == 1) then some analyst else role_in 10 1 acme.memberships))
unfolding provision_member authorize_workspace role_of role_rank grantable normalize_email
    is_address lower strip rstrip lstrip is_space keep_unless_blank is_mail_char lower_char
    is_address_end is_domain add_member find_or_add is_user membership new_user role_in
    are_mail_chars has_inner_dot find_row has_key insert text_eq
provision_member-grants_example =
    provision_member-grants library.hash_password by_key 10 2 (codes " Bob@acme.io") (codes "Bob")
      analyst (codes "longpassword") 4 acme with_bob 2 10 1 refl

acme-IsOwned : IsOwned acme
unfolding IsOwned has_key has_owner
acme-IsOwned w = ground arith

Calls-IsOwned_example : IsOwned session_used
unfolding authenticate starts_with authenticate_session find_row is_active_user lookup
    session_principal modify use_session
Calls-IsOwned_example =
    Calls-IsOwned library acme session_used
      (then_call none_yet (authenticates 9 (codes "chs_a") by_session refl)) acme-IsOwned
