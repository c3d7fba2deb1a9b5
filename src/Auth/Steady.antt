-- ===== src/Auth/Steady.antt =====
-- Revoked tokens and the roles of API keys through any sequence of the calls of
-- src/cryptohawk/storage/auth.py.
use crypto_hawk.Prelude.{
  ℕ, Option, [], ◌∷◌, Result, ok, err, ◌≡◌, refl, ap, arith, Text, find_row, Option-cases,
  Result-cases, inl, inr, bind-ok, text_eq,
}
use crypto_hawk.Auth.Records.{AuthDb, WorkspaceRecord, IssuedToken, Principal, WorkspaceRole}
use crypto_hawk.Auth.Edits.{kept, added}
use crypto_hawk.Auth.Names.{normalize_email}
use crypto_hawk.Auth.Sessions.{create_session, login}
use crypto_hawk.Auth.Members.{
  bootstrap, new_workspace, new_user, provision_member, add_workspace, first_session, first_rows,
}
use crypto_hawk.Auth.Keys.{create_api_key}
use crypto_hawk.Auth.Effects.{
  add_workspace-tables, create_workspace-tables, add_member-tables, provision_member-tables,
  create_api_key-tables, revoke_api_key-tables, add_first-tables,
}
use crypto_hawk.Auth.Calls.{
  Library, Call, bootstraps, logs_in, creates_session, revokes_session, authenticates,
  creates_workspace, provisions_member, creates_key, revokes_key,
}
use crypto_hawk.Auth.Tables.{
  TokenEdits, unchanged, revoke_key-edit, revoke_session-edit, create_session-edit,
  authenticate-edit, is_limited,
}

module _ (l : Library) where
  login-edit :
      (id : ℕ) (random : Text) (hours : ℕ) (email password : Text) (now : ℕ) (s t : AuthDb)
      (issued : IssuedToken)
      → login l.digest l.verify_password id random hours email password now s ≡ ok (t, issued)
      → TokenEdits s t
  unfolding login
  login-edit id random hours email password now s t issued e =
      let (address, a, e1) = bind-ok (normalize_email email) _ _ e in
      elim (Option-cases (find_row (λ u. text_eq u.email address) s.users)) [
        | inl missing ↦ ground (arith, missing, e1)
        | inr (found, f) ↦
            create_session-edit l id found.0 random hours now s t issued (ground (arith, f, e1))
      ]

  add_workspace-edit :
      (id : ℕ) (workspace : WorkspaceRecord) (user now : ℕ) (s t : AuthDb)
      → add_workspace id workspace user now s ≡ ok t
      → TokenEdits s t
  add_workspace-edit id workspace user now s t e =
      let eq = add_workspace-tables id workspace user now s t e in
      unchanged s t (ap (λ d. d.sessions) eq) (ap (λ d. d.api_keys) eq)

  provision_member-edit :
      (p : Principal) (workspace id : ℕ) (email display_name : Text) (role : WorkspaceRole)
      (password : Text) (now user : ℕ) (s t : AuthDb)
      → provision_member l.hash_password p workspace id email display_name role password now s
        ≡ ok (t, user)
      → TokenEdits s t
  provision_member-edit p workspace id email display_name role password now user s t e =
      let (caller_role, users, authorized, given, e1) =
        provision_member-tables l.hash_password p workspace id email display_name role password now
          s t user e in
      let eq = add_member-tables workspace role now s t users user e1 in
      unchanged s t (ap (λ d. d.sessions) eq) (ap (λ d. d.api_keys) eq)

  create_api_key-edit :
      (p : Principal) (id workspace : ℕ) (name : Text) (role : WorkspaceRole)
      (expires_days : Option ℕ) (random : Text) (now : ℕ) (token : Text) (s t : AuthDb)
      → create_api_key l.digest p id workspace name role expires_days random now s ≡ ok (t, token)
      → TokenEdits s t
  unfolding TokenEdits is_limited
  create_api_key-edit p id workspace name role expires_days random now token s t e =
      let (k, fresh, limited, eq) =
        create_api_key-tables l.digest p id workspace name role expires_days random now s t token
          e in
      rw (← eq) (kept, added id k fresh (ground (arith, limited)))

  same_tokens :
      (s after t : AuthDb)
      → s.sessions ≡ after.sessions
      → s.api_keys ≡ after.api_keys
      → TokenEdits after t
      → TokenEdits s t
  unfolding TokenEdits
  same_tokens s after t a b e = rw (a, b) e

  first_session-edit :
      (sid user : ℕ) (random : Text) (hours now : ℕ) (s t : AuthDb) (r : Result AuthDb)
      → ((after : AuthDb)
          → r ≡ ok after
          → (s.sessions ≡ after.sessions) × (s.api_keys ≡ after.api_keys))
      → (first_session l.digest sid user random hours now s r).0 ≡ t
      → TokenEdits s t
  unfolding first_session
  first_session-edit sid user random hours now s t (err x) made e =
      unchanged s t (ap (λ d. d.sessions) e) (ap (λ d. d.api_keys) e)
  first_session-edit sid user random hours now s t (ok after) made e =
      let same = made after refl in
      elim (Result-cases (create_session l.digest sid user random hours now after)) [
        | inr (x, bad) ↦
            (let eq : after ≡ t = ground (arith, bad, e) in
              same_tokens s after t same.0 same.1
                (unchanged after t (ap (λ d. d.sessions) eq) (ap (λ d. d.api_keys) eq)))
        | inl (made, fine) ↦
            (let eq : made.0 ≡ t = ground (arith, fine, e) in
              same_tokens s after t same.0 same.1
                (create_session-edit l sid user random hours now after t made.1 (rw (← eq) fine)))
      ]

  first_rows-tokens :
      (user id : ℕ) (email display_name password name : Text) (slug : Option Text) (now : ℕ)
      (s after : AuthDb)
      → first_rows l.hash_password user id email display_name password name slug now s ≡ ok after
      → (s.sessions ≡ after.sessions) × (s.api_keys ≡ after.api_keys)
  unfolding first_rows
  first_rows-tokens user id email display_name password name slug now s after e =
      let (address, a, e1) = bind-ok (normalize_email email) _ _ e in
      let (workspace, b, e2) = bind-ok (new_workspace name slug now) _ _ e1 in
      let (first, c, e3) = bind-ok (new_user address display_name [] now) _ _ e2 in
      let (hash, d, e4) = bind-ok (l.hash_password password) _ _ e3 in
      let row = record first { password_hash = hash } in
      let rows = add_first-tables user row id workspace now s after e4 in
      let eq =
        add_workspace-tables id workspace user now (record s { users = (user, row) ∷ [] }) after
          rows.1 in
      (ap (λ d. d.sessions) eq, ap (λ d. d.api_keys) eq)

  pub Call-edit : (s t : AuthDb) → Call l s t → TokenEdits s t
  unfolding bootstrap
  Call-edit s t (bootstraps user id sid random email display_name password name slug hours now e) =
      first_session-edit sid user random hours now s t
        (first_rows l.hash_password user id email display_name password name slug now s)
        (first_rows-tokens user id email display_name password name slug now s) e
  Call-edit s t (logs_in id random hours email password now issued e) =
      login-edit id random hours email password now s t issued e
  Call-edit s t (creates_session id user random hours now issued e) =
      create_session-edit l id user random hours now s t issued e
  Call-edit s t (revokes_session now p e) = rw (← e) (revoke_session-edit s now p)
  Call-edit s t (authenticates now token p e) = authenticate-edit l now token s t p e
  Call-edit s t (creates_workspace p id name slug now e) =
      let (workspace, user, e1) = create_workspace-tables p id name slug now s t e in
      add_workspace-edit id workspace user now s t e1
  Call-edit s t (provisions_member p workspace id email display_name role password now user e) =
      provision_member-edit p workspace id email display_name role password now user s t e
  Call-edit s t (creates_key p id workspace name role expires_days random now token e) =
      create_api_key-edit p id workspace name role expires_days random now token s t e
  Call-edit s t (revokes_key p workspace id now e) =
      revoke_key-edit s t now id (revoke_api_key-tables p workspace id now s t e)
