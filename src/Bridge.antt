-- ===== src/Bridge.antt =====
-- app/selective_http_bridge.py: a proxy on the loopback that turns HTTPS CONNECT requests into
-- connections through a SOCKS5 provider; here what it lets through.
pub mod Targets
mod Tests
use free_net_hub.Prelude.{
  ℕ, Bool, true, false, not, ◌&&◌, ◌||◌, Option, none, some, List, [], ◌∷◌, leb, ltb, ◌==◌, length,
  is_nil, any, all, if◌then◌else◌, Result, ok, err, ◌>>=◌, ◌>>◌, raise_if, Untyped, typed,
  ill_typed,
}
use free_net_hub.Text.{Text, Tables, text, eq_text, lower, rstrip, split_on, starts_with, ends_with}
use free_net_hub.Hosts.{label_ok, labels}
use free_net_hub.Hosts.Address.{IpAddress, is_outside}
use free_net_hub.Gateway.Request.{under}

-- The `BridgeError`s of the two checks, by their texts.
pub data BridgeError : Type 0 where
  invalid_socks5_port tailnet_only_owned_gateway_port tailnet_ipv4_required : BridgeError
  local_provider_must_use_loopback invalid_connect_authority connect_host_and_port_required :
      BridgeError
  connect_https_only connect_ip_literal_denied invalid_connect_host invalid_connect_dns :
      BridgeError
  invalid_domain_policy connect_host_not_allowed : BridgeError

unfoldable pub loopback : Text
loopback = text "127.0.0.1"

-- `type(port) is not int or not 1024 <= port <= 65535`
abbrev pub bad_port : Untyped ℕ → Bool
bad_port (typed port) = not (leb 1024 port && leb port 65535)
bad_port ill_typed = true

abbrev pub is_port : Untyped ℕ → ℕ → Bool
is_port (typed port) n = port == n
is_port ill_typed n = false

abbrev pub or_raise : Option IpAddress → Result BridgeError IpAddress
or_raise none = err tailnet_ipv4_required
or_raise (some ip) = ok ip

-- The `try` of `validate_proxy_host`
unfoldable pub tailnet_host : (Text → Option IpAddress) → Text → Result BridgeError Text
tailnet_host ip_address proxy_host = do
  ip ← or_raise (ip_address proxy_host)
  raise_if (is_outside ip) tailnet_ipv4_required
  ok ip.canonical

-- `validate_proxy_host` over `ipaddress.ip_address`
unfoldable pub validate_proxy_host :
    (Text → Option IpAddress) → Text → Text → Untyped ℕ → Result BridgeError Text
validate_proxy_host ip_address method proxy_host port =
    if bad_port port
    then err invalid_socks5_port
    else if eq_text method (text "TAILNET")
    then (if not (is_port port 19551)
        then err tailnet_only_owned_gateway_port
        else tailnet_host ip_address proxy_host)
    else if not (eq_text proxy_host loopback)
    then err local_provider_must_use_loopback
    else ok loopback

-- `host, port = authority.rsplit(":", 1)`; not one colon is not two parts.
abbrev pub two_parts : List Text → Result BridgeError (Text × Text)
two_parts (host ∷ port ∷ []) = ok (host, port)
two_parts parts = err connect_host_and_port_required

abbrev pub has : ℕ → Text → Bool
has c s = any (λ d. d == c) s

-- `not lbl or len(lbl) > 63`
abbrev pub bad_length : Text → Bool
bad_length label = is_nil label || ltb 63 (length label)

-- The guards on the host, in their order.
unfoldable pub screen_host : (Text → Bool) → Text → Text → Result BridgeError Unit
screen_host is_ip host port = do
  raise_if
      (not (eq_text port (text "443"))
        || (ltb 253 (length host) || (starts_with host (text ".") || ends_with host (text "."))))
      connect_https_only
  raise_if (is_ip host) connect_ip_literal_denied
  raise_if (ltb (length (labels host)) 2 || any bad_length (labels host)) invalid_connect_host
  raise_if (any (λ l. not (label_ok l)) (labels host)) invalid_connect_dns

-- The policy: a list of at most 64 domains that covers the host.
unfoldable pub check_policy : Text → Untyped (List Text) → Result BridgeError Text
check_policy host ill_typed = err invalid_domain_policy
check_policy host (typed domains) = do
  raise_if (ltb 64 (length domains)) invalid_domain_policy
  raise_if (not (any (under host) domains)) connect_host_not_allowed
  ok host

-- `normalize_connect_target`: the host, as the port that it returns too is 443. `is_ip` says whether
-- `ipaddress.ip_address` accepts a text; an entry of the list that is no text is skipped by the code
-- and does not stand in `domains`.
unfoldable pub normalize_connect_target :
    Tables → (Text → Bool) → Text → Untyped (List Text) → Result BridgeError Text
normalize_connect_target t is_ip authority domains = do
  raise_if (ltb 270 (length authority) || (has b'/' authority || has b'@' authority))
      invalid_connect_authority
  (raw, port) ← two_parts (split_on b':' authority)
  let host = rstrip (λ c. c == b'.') (lower t raw)
  screen_host is_ip host port
  check_policy host domains
