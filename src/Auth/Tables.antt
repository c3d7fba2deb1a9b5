-- ===== src/Auth/Tables.antt =====
-- The sessions and the API keys through one call of src/cryptohawk/storage/auth.py.
use crypto_hawk.Prelude.{
  ℕ, Bool, true, not, ok, ◌≡◌, refl, arith, Text, modify, find_row, is_some, Bool-cases, inl, inr,
  starts_with, codes, ◌==◌,
}
use crypto_hawk.Auth.Records.{
  AuthDb, SessionRecord, ApiKeyRecord, IssuedToken, Principal, session, api_key,
}
use crypto_hawk.Auth.Edits.{Edit, kept, added, changed}
use crypto_hawk.Auth.Sessions.{
  create_session, authenticate, use_session, use_key, revoke_session, revoke_row,
}
use crypto_hawk.Auth.Keys.{is_owner, revoke_key}
use crypto_hawk.Auth.Tokens.{create_session-row}
use crypto_hawk.Auth.Effects.{authenticate_session-tables, authenticate_key-tables}
use crypto_hawk.Auth.Calls.{Library}

unfoldable pub is_revoked_session : SessionRecord → Bool
is_revoked_session s = is_some s.revoked_at

unfoldable pub is_revoked_key : ApiKeyRecord → Bool
is_revoked_key k = is_some k.revoked_at

unfoldable pub is_any : SessionRecord → Bool
is_any s = true

-- An API key has a role below that of an owner.
unfoldable pub is_limited : ApiKeyRecord → Bool
is_limited k = not (is_owner k.role)

-- The tables of tokens through a call.
unfoldable pub TokenEdits : AuthDb → AuthDb → Type 0
TokenEdits s t =
    Edit is_revoked_session is_any s.sessions t.sessions
    × Edit is_revoked_key is_limited s.api_keys t.api_keys

pub unchanged : (s t : AuthDb) → s.sessions ≡ t.sessions → s.api_keys ≡ t.api_keys → TokenEdits s t
unfolding TokenEdits
unchanged s t a b = (rw (← a) kept, rw (← b) kept)

pub use_session-edit :
    (s t : AuthDb) (now id : ℕ)
    → record s { sessions = modify id (use_session now) s.sessions } ≡ t
    → TokenEdits s t
unfolding TokenEdits use_session is_revoked_session is_any
use_session-edit s t now id e =
    rw (← e) (changed id (use_session now) (λ v h. h) (λ v h. refl), kept)

pub use_key-edit :
    (s t : AuthDb) (now id : ℕ)
    → record s { api_keys = modify id (use_key now) s.api_keys } ≡ t
    → TokenEdits s t
unfolding TokenEdits use_key is_revoked_key is_limited
use_key-edit s t now id e = rw (← e) (kept, changed id (use_key now) (λ v h. h) (λ v h. h))

pub revoke_row-revoked :
    (now : ℕ) (v : SessionRecord) → is_revoked_session (revoke_row now v) ≡ true
unfolding is_revoked_session revoke_row
revoke_row-revoked now v = ground arith

revoke_key-limited : (now : ℕ) (v : ApiKeyRecord) → is_limited (revoke_key now v) ≡ is_limited v
unfolding is_limited revoke_key
revoke_key-limited now v = ground arith

pub revoke_key-revoked : (now : ℕ) (v : ApiKeyRecord) → is_revoked_key (revoke_key now v) ≡ true
unfolding is_revoked_key revoke_key
revoke_key-revoked now v = ground arith

pub revoke_key-edit :
    (s t : AuthDb) (now id : ℕ)
    → record s { api_keys = modify id (revoke_key now) s.api_keys } ≡ t
    → TokenEdits s t
unfolding TokenEdits
revoke_key-edit s t now id e = rw (← e) (
  kept,
  changed id (revoke_key now) (λ v h. revoke_key-revoked now v)
      (λ v h. rw (revoke_key-limited now v) h),
)

pub revoke_session-edit :
    (s : AuthDb) (now : ℕ) (p : Principal) → TokenEdits s (revoke_session now p s)
unfolding revoke_session TokenEdits is_any
revoke_session-edit s now p =
    elim p.kind
      as (λ k. TokenEdits s (elim k [
        | api_key ↦ s
        | session ↦ record s { sessions = modify p.subject_id (revoke_row now) s.sessions }
      ])) [
        | api_key ↦ (kept, kept)
        | session ↦ (
          changed p.subject_id (revoke_row now) (λ v h. revoke_row-revoked now v) (λ v h. refl),
          kept,
        )
      ]

module _ (l : Library) where
  pub create_session-edit :
      (id user : ℕ) (random : Text) (hours now : ℕ) (s t : AuthDb) (issued : IssuedToken)
      → create_session l.digest id user random hours now s ≡ ok (t, issued)
      → TokenEdits s t
  unfolding TokenEdits is_any
  create_session-edit id user random hours now s t issued e =
      let made = create_session-row l.digest id user random hours now s t issued e in
      rw (made.1) (added id _ made.3 refl, kept)

  pub authenticate-edit :
      (now : ℕ) (token : Text) (s t : AuthDb) (p : Principal)
      → authenticate l.digest now token s ≡ ok (t, p)
      → TokenEdits s t
  unfolding authenticate
  authenticate-edit now token s t p e = elim (Bool-cases (starts_with (codes "chs_") token)) [
    | inl chs ↦ use_session-edit s t now p.subject_id (
        authenticate_session-tables now s t
          (find_row (λ s. s.token_hash == l.digest token) s.sessions) p (ground (arith, chs, e)))
    | inr not_chs ↦ elim (Bool-cases (starts_with (codes "chk_") token)) [
      | inl key ↦ use_key-edit s t now p.subject_id (
          authenticate_key-tables now s t
            (find_row (λ k. k.token_hash == l.digest token) s.api_keys) p
            (ground (arith, not_chs, key, e)))
      | inr other ↦ ground (arith, not_chs, other, e)
    ]
  ]
