-- ===== src/Auth/Owners.antt =====
-- Workspaces and their owners through any sequence of the calls of src/cryptohawk/storage/auth.py.
use crypto_hawk.Prelude.{
  ℕ, Bool, Option, [], ◌∷◌, Result, ok, err, ◌≡◌, refl, arith, ap, Text, Option-cases, Result-cases,
  Bool-cases, inl, inr, bind-ok, find_row, text_eq, starts_with, codes, ◌==◌,
}
use crypto_hawk.Auth.Records.{AuthDb, Principal, IssuedToken}
use crypto_hawk.Auth.Names.{normalize_email}
use crypto_hawk.Auth.Sessions.{create_session, authenticate, login, revoke_session}
use crypto_hawk.Auth.Tokens.{create_session-row}
use crypto_hawk.Auth.Members.{bootstrap, first_rows, first_session, new_workspace, new_user}
use crypto_hawk.Auth.Effects.{
  provision_member-tables, create_workspace-tables, add_first-tables, create_api_key-tables,
  revoke_api_key-tables, authenticate_session-tables, authenticate_key-tables,
}
use crypto_hawk.Auth.Calls.{
  Library, Call, bootstraps, logs_in, creates_session, revokes_session, authenticates,
  creates_workspace, provisions_member, creates_key, revokes_key, Calls, none_yet, then_call,
}
use crypto_hawk.Auth.Grants.{IsOwned, add_workspace-IsOwned, add_member-IsOwned}

-- A call that leaves the workspaces and the memberships as they are.
same_owners :
    (s t : AuthDb)
    → s.workspaces ≡ t.workspaces
    → s.memberships ≡ t.memberships
    → IsOwned s
    → IsOwned t
unfolding IsOwned
same_owners s t a b h = rw (← a, ← b) h

module _ (digest : Text → ℕ) where
  create_session-IsOwned :
      (id user : ℕ) (random : Text) (hours now : ℕ) (s t : AuthDb) (issued : IssuedToken)
      → create_session digest id user random hours now s ≡ ok (t, issued)
      → IsOwned s
      → IsOwned t
  unfolding IsOwned
  create_session-IsOwned id user random hours now s t issued e h =
      let made = create_session-row digest id user random hours now s t issued e in rw (made.1) h

  login-IsOwned :
      (verify : Text → Text → Bool) (id : ℕ) (random : Text) (hours : ℕ) (email password : Text)
      (now : ℕ) (s t : AuthDb) (issued : IssuedToken)
      → login digest verify id random hours email password now s ≡ ok (t, issued)
      → IsOwned s
      → IsOwned t
  unfolding login
  login-IsOwned verify id random hours email password now s t issued e h =
      let (address, a, e1) = bind-ok (normalize_email email) _ _ e in
      elim (Option-cases (find_row (λ u. text_eq u.email address) s.users)) [
        | inl missing ↦ ground (arith, missing, e1)
        | inr (found, f) ↦
            create_session-IsOwned id found.0 random hours now s t issued (ground (arith, f, e1)) h
      ]

  authenticate-IsOwned :
      (now : ℕ) (token : Text) (s t : AuthDb) (p : Principal)
      → authenticate digest now token s ≡ ok (t, p)
      → IsOwned s
      → IsOwned t
  unfolding authenticate
  authenticate-IsOwned now token s t p e h =
      let row = find_row (λ s. s.token_hash == digest token) s.sessions in
      let k = find_row (λ k. k.token_hash == digest token) s.api_keys in
      elim (Bool-cases (starts_with (codes "chs_") token)) [
        | inl chs ↦
            (let eq = authenticate_session-tables now s t row p (ground (arith, chs, e)) in
              same_owners s t (ap (λ d. d.workspaces) eq) (ap (λ d. d.memberships) eq) h)
        | inr not_chs ↦ elim (Bool-cases (starts_with (codes "chk_") token)) [
          | inl chk ↦
              (let eq = authenticate_key-tables now s t k p (ground (arith, not_chs, chk, e)) in
                same_owners s t (ap (λ d. d.workspaces) eq) (ap (λ d. d.memberships) eq) h)
          | inr other ↦ ground (arith, not_chs, other, e)
        ]
      ]

revoke_session-owners :
    (now : ℕ) (p : Principal) (s : AuthDb)
    → (s.workspaces ≡ (revoke_session now p s).workspaces)
      × (s.memberships ≡ (revoke_session now p s).memberships)
unfolding revoke_session
revoke_session-owners now p s = ground arith

first_rows-IsOwned :
    (hash_password : Text → Result Text) (user id : ℕ) (email display_name password name : Text)
    (slug : Option Text) (now : ℕ) (s t : AuthDb)
    → first_rows hash_password user id email display_name password name slug now s ≡ ok t
    → IsOwned s
    → IsOwned t
unfolding first_rows IsOwned
first_rows-IsOwned hash_password user id email display_name password name slug now s t e h =
    let (address, a, e1) = bind-ok (normalize_email email) _ _ e in
    let (workspace, b, e2) = bind-ok (new_workspace name slug now) _ _ e1 in
    let (first, c, e3) = bind-ok (new_user address display_name [] now) _ _ e2 in
    let (hash, d, e4) = bind-ok (hash_password password) _ _ e3 in
    let row = record first { password_hash = hash } in
    add_workspace-IsOwned id workspace user now (record s { users = (user, row) ∷ [] }) t
      (add_first-tables user row id workspace now s t e4).1 h

first_session-IsOwned :
    (digest : Text → ℕ) (sid user : ℕ) (random : Text) (hours now : ℕ) (s t : AuthDb)
    (r : Result AuthDb)
    → ((after : AuthDb) → r ≡ ok after → IsOwned after)
    → (first_session digest sid user random hours now s r).0 ≡ t
    → IsOwned s
    → IsOwned t
unfolding first_session
first_session-IsOwned digest sid user random hours now s t (err x) made e h = rw (← e) h
first_session-IsOwned digest sid user random hours now s t (ok after) made e h =
    elim (Result-cases (create_session digest sid user random hours now after)) [
      | inr (x, bad) ↦ (let eq : after ≡ t = ground (arith, bad, e) in rw (← eq) (made after refl))
      | inl (got, fine) ↦
          (let eq : got.0 ≡ t = ground (arith, fine, e) in
            create_session-IsOwned digest sid user random hours now after t got.1 (rw (← eq) fine)
              (made after refl))
    ]

module _ (l : Library) where
  Call-IsOwned : (s t : AuthDb) → Call l s t → IsOwned s → IsOwned t
  unfolding bootstrap
  Call-IsOwned s t (bootstraps user id sid random email display_name password name slug hours now e)
        h =
      first_session-IsOwned l.digest sid user random hours now s t
        (first_rows l.hash_password user id email display_name password name slug now s)
        (λ after made.
          first_rows-IsOwned l.hash_password user id email display_name password name slug now s
            after made h)
        e h
  Call-IsOwned s t (logs_in id random hours email password now issued e) h =
      login-IsOwned l.digest l.verify_password id random hours email password now s t issued e h
  Call-IsOwned s t (creates_session id user random hours now issued e) h =
      create_session-IsOwned l.digest id user random hours now s t issued e h
  Call-IsOwned s t (revokes_session now p e) h =
      let same = revoke_session-owners now p s in
      rw (← e) (same_owners s (revoke_session now p s) same.0 same.1 h)
  Call-IsOwned s t (authenticates now token p e) h =
      authenticate-IsOwned l.digest now token s t p e h
  Call-IsOwned s t (creates_workspace p id name slug now e) h =
      let (workspace, user, e1) = create_workspace-tables p id name slug now s t e in
      add_workspace-IsOwned id workspace user now s t e1 h
  Call-IsOwned s t (provisions_member p workspace id email display_name role password now user e)
        h =
      let (caller_role, users, authorized, given, e1) =
        provision_member-tables l.hash_password p workspace id email display_name role password now
          s t user e in
      add_member-IsOwned workspace role now s t users user e1 h
  Call-IsOwned s t (creates_key p id workspace name role expires_days random now token e) h =
      let (k, fresh, limited, eq) =
        create_api_key-tables l.digest p id workspace name role expires_days random now s t token
          e in
      same_owners s t (ap (λ d. d.workspaces) eq) (ap (λ d. d.memberships) eq) h
  Call-IsOwned s t (revokes_key p workspace id now e) h =
      let eq = revoke_api_key-tables p workspace id now s t e in
      same_owners s t (ap (λ d. d.workspaces) eq) (ap (λ d. d.memberships) eq) h

  -- Through any sequence of calls each workspace keeps a member who owns it, when each has one at
  -- first.
  pub Calls-IsOwned : (s t : AuthDb) → Calls l s t → IsOwned s → IsOwned t
  Calls-IsOwned s t none_yet h = h
  Calls-IsOwned s t (then_call {t = m} before call) h =
      Call-IsOwned m t call (Calls-IsOwned s m before h)
