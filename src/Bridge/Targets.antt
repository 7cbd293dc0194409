-- ===== src/Bridge/Targets.antt =====
-- What the bridge lets through.
use free_net_hub.Prelude.{
  ℕ, ◌≤◌, ◌≡◌, ◌⊎◌, refl, inl, inr, Bool, true, false, not, ◌||◌, Option, none, some, List, [], ◌∷◌,
  ltb, ◌==◌, length, any, all, Bool-cases, arith, ok, err, >>=-eq-ok, raise_if, raise_if-eq-ok,
  Untyped, typed, ill_typed,
}
use free_net_hub.Text.{Text, Tables, text, eq_text, lower, rstrip, split_on}
use free_net_hub.Text.Affix.{eq_of_eq_text}
use free_net_hub.Hosts.{label_ok, labels}
use free_net_hub.Hosts.Address.{IpAddress, is_outside, IsTailnet, is_outside-IsTailnet}
use free_net_hub.Selective.Pac.{selects}
use free_net_hub.Selective.Pac.Routes.{Covered, any-Covered}
use free_net_hub.Gateway.Request.{under}
use free_net_hub.Bridge.{
  invalid_socks5_port, tailnet_only_owned_gateway_port, local_provider_must_use_loopback, is_port,
  bad_port, or_raise, tailnet_ipv4_required, tailnet_host, loopback, validate_proxy_host, two_parts,
  has, screen_host, check_policy, normalize_connect_target,
}

-- A DNS name of two or more labels that is no address.
pub record IsTarget (is_ip : Text → Bool) (host : Text) : Type 0 where
  pub two : 2 ≤ length (labels host)
  pub short : length host ≤ 253
  pub each : all label_ok (labels host) ≡ true
  pub no_address : is_ip host ≡ false

all_of_any : (ls : List Text) → any (λ l. not (label_ok l)) ls ≡ false → all label_ok ls ≡ true
all_of_any [] h = refl
all_of_any (l ∷ ls) h = ground (arith, all_of_any ls)

screen_host-IsTarget :
    (is_ip : Text → Bool) (host port : Text) {u : Unit}
    → screen_host is_ip host port ≡ ok u
    → IsTarget is_ip host
unfolding screen_host
screen_host-IsTarget is_ip host port e = record {
  two = ground arith;
  short = ground arith;
  each = all_of_any (labels host) (ground arith);
  no_address = ground arith;
}

check_policy-Covered :
    (host : Text) (domains : Untyped (List Text)) {h : Text}
    → check_policy host domains ≡ ok h
    → (ds : List Text) × (domains ≡ typed ds) × (length ds ≤ 64) × (host ≡ h) × Covered ds host
unfolding check_policy
check_policy-Covered host ill_typed e = cc
check_policy-Covered host (typed ds) {h} e =
    let found : any (under host) ds ≡ true = ground arith in
    let same : host ≡ h = ground arith in
    (ds, refl, ground arith, same, any-Covered host ds (unfold under selects in found))

-- A host that `normalize_connect_target` returns is a DNS name of two or more labels and no address,
-- and a domain of the policy, which is a list of at most 64, is the host or stands above it.
pub normalize_connect_target-Covered :
    (t : Tables) (is_ip : Text → Bool) (authority : Text) (domains : Untyped (List Text))
    {host : Text}
    → normalize_connect_target t is_ip authority domains ≡ ok host
    → IsTarget is_ip host
      × ((ds : List Text) × (domains ≡ typed ds) × (length ds ≤ 64) × Covered ds host)
unfolding normalize_connect_target
normalize_connect_target-Covered t is_ip authority domains {host} e =
    let (_, _, e1) =
      >>=-eq-ok
        (raise_if (ltb 270 (length authority) || (has b'/' authority || has b'@' authority)) _) _
        e in
    let (parts, _, e2) = >>=-eq-ok (two_parts (split_on b':' authority)) _ e1 in
    let decoded = rstrip (λ c. c == b'.') (lower t parts.0) in
    let (_, screened, e3) = >>=-eq-ok (screen_host is_ip decoded parts.1) _ e2 in
    let (ds, given, few, same, covered) = check_policy-Covered decoded domains e3 in
    rw (← same) (screen_host-IsTarget is_ip decoded parts.1 screened, (ds, given, few, covered))

or_raise-eq-ok : (o : Option IpAddress) {a : IpAddress} → or_raise o ≡ ok a → o ≡ some a
or_raise-eq-ok none e = cc
or_raise-eq-ok (some a) e = cc

tailnet_host-IsTailnet :
    (ip_address : Text → Option IpAddress) (proxy_host : Text) {a : Text}
    → tailnet_host ip_address proxy_host ≡ ok a
    → IsTailnet ip_address proxy_host a
unfolding tailnet_host
tailnet_host-IsTailnet ip_address proxy_host {a} e =
    let (ip, accepted, e1) = >>=-eq-ok (or_raise (ip_address proxy_host)) _ e in
    let (_, inside, e2) = >>=-eq-ok (raise_if (is_outside ip) tailnet_ipv4_required) _ e1 in
    let same : ip.canonical ≡ a = cc in
    is_outside-IsTailnet ip_address proxy_host ip (or_raise-eq-ok (ip_address proxy_host) accepted)
      (raise_if-eq-ok (is_outside ip) tailnet_ipv4_required inside) same

port-typed : (port : Untyped ℕ) → is_port port 19551 ≡ true → port ≡ typed 19551
port-typed ill_typed h = cc
port-typed (typed port) h = ground arith

-- The provider's address leaves the loopback for the method TAILNET only, and then only for the port
-- 19551 of an IPv4 address from 100.64.0.0 to 100.127.255.255, in its canonical form.
pub validate_proxy_host-stays :
    (ip_address : Text → Option IpAddress) (method proxy_host : Text) (port : Untyped ℕ) {a : Text}
    → validate_proxy_host ip_address method proxy_host port ≡ ok a
    → (a ≡ text "127.0.0.1")
      ⊎ ((method ≡ text "TAILNET") × (port ≡ typed 19551) × IsTailnet ip_address proxy_host a)
unfolding validate_proxy_host loopback
validate_proxy_host-stays ip_address method proxy_host port {a} e =
    elim (Bool-cases (bad_port port)) [
      | inl bad ↦ let x : err invalid_socks5_port ≡ ok a = rw bad at e in cc
      | inr good ↦ elim (Bool-cases (eq_text method (text "TAILNET"))) [
        | inl tail ↦ elim (Bool-cases (is_port port 19551)) [
          | inl owned ↦ inr (
            eq_of_eq_text method (text "TAILNET") tail,
            port-typed port owned,
            tailnet_host-IsTailnet ip_address proxy_host (rw (good, tail, owned) at e),
          )
          | inr foreign ↦
              let x : err tailnet_only_owned_gateway_port ≡ ok a = rw (good, tail, foreign) at e in
              cc
        ]
        | inr local ↦ elim (Bool-cases (eq_text proxy_host loopback)) [
          | inl same ↦ let x : ok loopback ≡ ok a = rw (good, local, same) at e in inl cc
          | inr away ↦
              let x : err local_provider_must_use_loopback ≡ ok a = rw (good, local, away) at e in
              cc
        ]
      ]
    ]
