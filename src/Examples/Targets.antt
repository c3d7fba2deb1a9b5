-- ===== src/Examples/Targets.antt =====
-- A host that src/cryptohawk/security/network.py resolves to two answers for one address.
use crypto_hawk.Prelude.{
  ℕ, true, false, none, some, [], ◌∷◌, Text, codes, text_eq, strip, ◌≡◌, refl, arith, if◌then◌else◌,
  Bool-cases, inl, inr, lstrip, rstrip, is_space, keep_unless_blank,
}
use crypto_hawk.Network.{
  Internet, Address, Answer, ResolvedTarget, resolve_target, drop_last_dots, keep_unless_dots,
  resolve_host, named_target, resolve_all, check_answer, is_allowed_address, address_is_unsafe,
  was_seen, first_target, target_of,
}
use crypto_hawk.Network.Safe.{is_safe, answers_are_safe, resolve_target-is_safe}

abbrev public_address : Address
public_address = record {
  is_multicast = false;
  is_unspecified = false;
  is_global = true;
  is_version_6 = false;
  text = codes "8.8.8.8";
}

abbrev answer : ℕ → Answer
answer socktype = record {
  family = 2;
  socktype = socktype;
  proto = 6;
  sockaddr = record { host = codes "8.8.8.8"; port = 443; flow_and_scope = none };
}

abbrev net : Internet
net = record {
  ip_address = λ s. if text_eq s (codes "8.8.8.8") then some public_address else none;
  getaddrinfo = λ host port. some (answer 1 ∷ answer 1 ∷ []);
  af_inet = 2;
  af_inet6 = 10;
  sock_stream = 1;
  ipproto_tcp = 6;
}

reads_back : (s : Text) (a : Address) → net.ip_address s ≡ some a → net.ip_address a.text ≡ some a
unfolding text_eq
reads_back s a e = elim (Bool-cases (text_eq s (codes "8.8.8.8"))) [
  | inl same ↦ (let eq : public_address ≡ a = ground (arith, same, e) in rw (← eq) refl)
  | inr other ↦ ground (arith, other, e)
]

abbrev target : ResolvedTarget
target = record {
  hostname = codes "a.io";
  ip = codes "8.8.8.8";
  family = 2;
  socktype = 1;
  proto = 6;
  sockaddr = record { host = codes "8.8.8.8"; port = 443; flow_and_scope = none };
}

resolve_target-is_safe_example :
    (is_safe net false (codes "8.8.8.8") ≡ true)
    × (answers_are_safe net false (drop_last_dots (strip (codes " a.io."))) 443 ≡ true)
unfolding resolve_target strip lstrip rstrip is_space keep_unless_blank drop_last_dots
    keep_unless_dots resolve_host text_eq named_target resolve_all check_answer is_allowed_address
    address_is_unsafe was_seen first_target target_of
resolve_target-is_safe_example =
    resolve_target-is_safe net reads_back false (codes " a.io.") 443 target refl
