-- ===== src/Network/Resolve.antt =====
-- `resolve_target` of src/cryptohawk/security/network.py. The addresses (ipaddress) and the resolver
-- (socket.getaddrinfo) are the functions of `Internet`.
use crypto_hawk.Prelude.{
  ℕ, Bool, false, not, ◌&&◌, ◌||◌, Option, none, some, List, [], ◌∷◌, Result, ok, err, ◌>>=◌,
  value_error, Text, strip, text_eq, ◌==◌, if◌then◌else◌,
}

-- An `IPv4Address` or an `IPv6Address`; `text` is its `str`.
pub record Address : Type 0 where
  pub is_multicast : Bool
  pub is_unspecified : Bool
  pub is_global : Bool
  pub is_version_6 : Bool
  pub text : Text

-- The host and the port, and the flow and the scope of IPv6.
pub record SocketAddress : Type 0 where
  pub host : Text
  pub port : ℕ
  pub flow_and_scope : Option (ℕ × ℕ)

pub record Answer : Type 0 where
  pub family : ℕ
  pub socktype : ℕ
  pub proto : ℕ
  pub sockaddr : SocketAddress

-- `ipaddress.ip_address` and `socket.getaddrinfo`, `none` where they raise, and the constants of
-- `socket`.
pub record Internet : Type 0 where
  pub ip_address : Text → Option Address
  pub getaddrinfo : Text → ℕ → Option (List Answer)
  pub af_inet : ℕ
  pub af_inet6 : ℕ
  pub sock_stream : ℕ
  pub ipproto_tcp : ℕ

pub record ResolvedTarget : Type 0 where
  pub hostname : Text
  pub ip : Text
  pub family : ℕ
  pub socktype : ℕ
  pub proto : ℕ
  pub sockaddr : SocketAddress

unfoldable pub address_is_unsafe : Address → Bool
address_is_unsafe a = a.is_multicast || a.is_unspecified

-- What passes both tests of an address.
unfoldable pub is_allowed_address : Bool → Address → Bool
is_allowed_address allow_private a =
    not (address_is_unsafe a) && not (not allow_private && not a.is_global)

-- `rstrip(".")`
unfoldable pub keep_unless_dots : ℕ → Text → Text
keep_unless_dots c [] = if c == b'.' then [] else c ∷ []
keep_unless_dots c (d ∷ s) = c ∷ d ∷ s

unfoldable pub drop_last_dots : Text → Text
drop_last_dots [] = []
drop_last_dots (c ∷ s) = keep_unless_dots c (drop_last_dots s)

unfoldable pub was_seen : ℕ → Text → List (ℕ × Text) → Bool
was_seen family ip [] = false
was_seen family ip ((f, t) ∷ seen) = (f == family) && text_eq t ip || was_seen family ip seen

unfoldable pub target_of : Text → Answer → ResolvedTarget
target_of hostname a = record {
  hostname = hostname;
  ip = a.sockaddr.host;
  family = a.family;
  socktype = a.socktype;
  proto = a.proto;
  sockaddr = a.sockaddr;
}

module _ (net : Internet) where
  -- The checks of an answer, which raise.
  unfoldable pub check_answer : Bool → Answer → Result Address
  check_answer allow_private a = elim (net.ip_address a.sockaddr.host) [
    | none ↦ err value_error
    | some address ↦
        if is_allowed_address allow_private address then ok address else err value_error
  ]

  -- The loop over the answers: each is checked, the first of a family and an address is kept.
  unfoldable pub resolve_all :
      Bool → Text → List Answer → List (ℕ × Text) → Result (List ResolvedTarget)
  resolve_all allow_private hostname [] seen = ok []
  resolve_all allow_private hostname (a ∷ answers) seen =
      let skipped = resolve_all allow_private hostname answers seen in
      let others =
        resolve_all allow_private hostname answers ((a.family, a.sockaddr.host) ∷ seen) in
      elim (check_answer allow_private a) [
        | err e ↦ err e
        | ok address ↦
            if was_seen a.family a.sockaddr.host seen
            then skipped
            else others >>= (λ targets. ok (target_of hostname a ∷ targets))
      ]

  unfoldable pub first_target : List ResolvedTarget → Result ResolvedTarget
  first_target [] = err value_error
  first_target (t ∷ targets) = ok t

  unfoldable pub literal_target : Bool → Text → ℕ → Address → Result ResolvedTarget
  literal_target allow_private hostname port a =
      if is_allowed_address allow_private a
      then ok (record {
        hostname = hostname;
        ip = a.text;
        family = if a.is_version_6 then net.af_inet6 else net.af_inet;
        socktype = net.sock_stream;
        proto = net.ipproto_tcp;
        sockaddr = record {
          host = a.text;
          port = port;
          flow_and_scope = if a.is_version_6 then some (0, 0) else none;
        };
      })
      else err value_error

  unfoldable pub named_target : Bool → Text → Option (List Answer) → Result ResolvedTarget
  named_target allow_private hostname none = err value_error
  named_target allow_private hostname (some []) = err value_error
  named_target allow_private hostname (some (a ∷ answers)) = do
    targets ← resolve_all allow_private hostname (a ∷ answers) []
    first_target targets

  unfoldable pub resolve_host : Bool → Text → ℕ → Result ResolvedTarget
  resolve_host allow_private [] port = err value_error
  resolve_host allow_private (c ∷ s) port = elim (net.ip_address (c ∷ s)) [
    | some a ↦ literal_target allow_private (c ∷ s) port a
    | none ↦ named_target allow_private (c ∷ s) (net.getaddrinfo (c ∷ s) port)
  ]

  unfoldable pub resolve_target : Bool → Text → ℕ → Result ResolvedTarget
  resolve_target allow_private hostname port =
      resolve_host allow_private (drop_last_dots (strip hostname)) port
