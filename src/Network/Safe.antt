-- ===== src/Network/Safe.antt =====
-- The targets that `resolve_target` of src/cryptohawk/security/network.py returns.
use crypto_hawk.Prelude.{
  ℕ, Bool, true, false, ◌&&◌, Option, none, some, List, [], ◌∷◌, ok, ◌≡◌, refl, arith, Text, strip,
  Option-cases, Result-cases, Bool-cases, inl, inr, bind-ok, not, ◌||◌,
}
use crypto_hawk.Network.Resolve.{
  Internet, Address, Answer, ResolvedTarget, is_allowed_address, check_answer, resolve_all,
  first_target, literal_target, named_target, resolve_host, resolve_target, target_of, was_seen,
  drop_last_dots, address_is_unsafe,
}

-- Neither multicast nor unspecified, and global unless private ones are allowed.
unfoldable pub may_connect : Bool → Address → Bool
may_connect allow_private a =
    not a.is_multicast && (not a.is_unspecified && (allow_private || a.is_global))

is_allowed_address-may_connect :
    (private : Bool) (a : Address) → is_allowed_address private a ≡ may_connect private a
unfolding is_allowed_address address_is_unsafe may_connect
is_allowed_address-may_connect private a = ground arith

module _ (net : Internet) where
  -- The text is an address that the scan may connect to.
  unfoldable pub is_safe : Bool → Text → Bool
  is_safe allow_private ip = elim (net.ip_address ip) [
    | none ↦ false
    | some a ↦ may_connect allow_private a
  ]

  unfoldable pub are_safe : Bool → List Answer → Bool
  are_safe allow_private [] = true
  are_safe allow_private (a ∷ answers) =
      is_safe allow_private a.sockaddr.host && are_safe allow_private answers

  check_answer-is_safe :
      (private : Bool) (a : Answer) (address : Address)
      → check_answer net private a ≡ ok address
      → is_safe private a.sockaddr.host ≡ true
  unfolding check_answer is_safe
  check_answer-is_safe private a address e = elim (Option-cases (net.ip_address a.sockaddr.host)) [
    | inl missing ↦ ground (arith, missing, e)
    | inr (found, f) ↦ ground (arith, f, e, is_allowed_address-may_connect private found)
  ]

  unfoldable are_safe_targets : Bool → List ResolvedTarget → Bool
  are_safe_targets allow_private [] = true
  are_safe_targets allow_private (t ∷ targets) =
      is_safe allow_private t.sockaddr.host && are_safe_targets allow_private targets

  -- When the loop over the answers ends, all of them are safe, and the targets are.
  resolve_all-are_safe :
      (private : Bool) (host : Text) (answers : List Answer) (seen : List (ℕ × Text))
      (targets : List ResolvedTarget)
      → resolve_all net private host answers seen ≡ ok targets
      → (are_safe private answers ≡ true) × (are_safe_targets private targets ≡ true)
  unfolding resolve_all are_safe are_safe_targets target_of
  resolve_all-are_safe private host [] seen targets e = (refl, ground arith)
  resolve_all-are_safe private host (a ∷ answers) seen targets e =
      elim (Result-cases (check_answer net private a)) [
        | inr (x, bad) ↦ ground (arith, bad, e)
        | inl (address, fine) ↦
            (let safe = check_answer-is_safe private a address fine in
              elim (Bool-cases (was_seen a.family a.sockaddr.host seen)) [
                | inl old ↦ ground (
                  arith,
                  safe,
                  resolve_all-are_safe private host answers seen targets
                      (ground (arith, fine, old, e)),
                )
                | inr new ↦
                    (let (others, got, eq) =
                        bind-ok
                          (resolve_all net private host answers
                            ((a.family, a.sockaddr.host) ∷ seen))
                          (λ ts. ok (target_of host a ∷ ts)) targets
                          (ground (arith, fine, new, e)) in
                      ground (
                        arith,
                        safe,
                        eq,
                        resolve_all-are_safe private host answers
                            ((a.family, a.sockaddr.host) ∷ seen) others got,
                      ))
              ])
      ]

  first_target-is_safe :
      (private : Bool) (targets : List ResolvedTarget) (t : ResolvedTarget)
      → are_safe_targets private targets ≡ true
      → first_target net targets ≡ ok t
      → is_safe private t.sockaddr.host ≡ true
  unfolding first_target are_safe_targets
  first_target-is_safe private [] t h e = ground arith
  first_target-is_safe private (u ∷ targets) t h e = ground arith

  -- What the target was found by: the address itself, or the answers of the resolver.
  unfoldable pub answers_are_safe : Bool → Text → ℕ → Bool
  answers_are_safe allow_private host port = elim (net.ip_address host) [
    | some a ↦ may_connect allow_private a
    | none ↦ elim (net.getaddrinfo host port) [
      | none ↦ false
      | some answers ↦ are_safe allow_private answers
    ]
  ]

  literal_target-is_safe :
      (private : Bool) (host : Text) (port : ℕ) (a : Address) (t : ResolvedTarget)
      → net.ip_address a.text ≡ some a
      → literal_target net private host port a ≡ ok t
      → (is_safe private t.sockaddr.host ≡ true) × (may_connect private a ≡ true)
  unfolding literal_target is_safe
  literal_target-is_safe private host port a t back e =
      ground (arith, is_allowed_address-may_connect private a)

  named_target-is_safe :
      (private : Bool) (host : Text) (found : Option (List Answer)) (t : ResolvedTarget)
      → named_target net private host found ≡ ok t
      → (answers : List Answer) × (found ≡ some answers)
        × (are_safe private answers ≡ true)
        × (is_safe private t.sockaddr.host ≡ true)
  unfolding named_target
  named_target-is_safe private host none t e = ground arith
  named_target-is_safe private host (some []) t e = ground arith
  named_target-is_safe private host (some (a ∷ answers)) t e =
      let (targets, got, first) =
        bind-ok (resolve_all net private host (a ∷ answers) []) (first_target net) t e in
      let both = resolve_all-are_safe private host (a ∷ answers) [] targets got in
      (a ∷ answers, refl, both.0, first_target-is_safe private targets t both.1 first)

  resolve_host-is_safe :
      ((s : Text) (a : Address) → net.ip_address s ≡ some a → net.ip_address a.text ≡ some a)
      → (private : Bool) (host : Text) (port : ℕ) (t : ResolvedTarget)
      → resolve_host net private host port ≡ ok t
      → (is_safe private t.sockaddr.host ≡ true) × (answers_are_safe private host port ≡ true)
  unfolding resolve_host answers_are_safe
  resolve_host-is_safe reads private [] port t e = ground arith
  resolve_host-is_safe reads private (c ∷ s) port t e =
      elim (Option-cases (net.ip_address (c ∷ s))) [
        | inr (a, literal) ↦ ground (
          arith,
          literal,
          literal_target-is_safe private (c ∷ s) port a t (reads (c ∷ s) a literal)
              (ground (arith, literal, e)),
        )
        | inl not_literal ↦
            (let (answers, found, all, safe) =
                named_target-is_safe private (c ∷ s) (net.getaddrinfo (c ∷ s) port) t
                  (ground (arith, not_literal, e)) in
              ground (arith, not_literal, found, all, safe))
      ]

  -- When the text of an address reads as that address, a target that `resolve_target` returns has a
  -- socket address that reads as one that the scan may connect to: neither multicast nor
  -- unspecified, and global unless private ones are allowed; and if the host was not an address by
  -- itself, each answer of the resolver was such an address.
  pub resolve_target-is_safe :
      ((s : Text) (a : Address) → net.ip_address s ≡ some a → net.ip_address a.text ≡ some a)
      → (private : Bool) (hostname : Text) (port : ℕ) (t : ResolvedTarget)
      → resolve_target net private hostname port ≡ ok t
      → (is_safe private t.sockaddr.host ≡ true)
        × (answers_are_safe private (drop_last_dots (strip hostname)) port ≡ true)
  unfolding resolve_target
  resolve_target-is_safe reads private hostname port t e =
      resolve_host-is_safe reads private (drop_last_dots (strip hostname)) port t e
