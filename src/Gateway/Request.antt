-- ===== src/Gateway/Request.antt =====
-- `_safe_host` and `_read_request` of crossplatform/linux/tailnet_cfon_gateway.py.
pub mod Segments
pub mod Targets
pub mod RoundTrip
pub mod Safety
use free_net_hub.Prelude.{
  ℕ, ◌+◌, ◌*◌, Bool, true, false, not, ◌&&◌, ◌||◌, List, [], ◌∷◌, ◌++◌, leb, ltb, ◌==◌, length,
  is_nil, any, all, map, if◌then◌else◌, Result, ok, err,
}
use free_net_hub.Prelude.Exec.{pure, raise, lift, raise_when, except, ◌>>=◌, ◌>>◌}
use free_net_hub.Text.{Text, eq_text, ends_with, rstrip, lower_char, is_ascii}
use free_net_hub.Hosts.{labels, label_ok}
use free_net_hub.Gateway.Socket.{
  GatewayError, socks_version, method_count_invalid, noauth_required, only_connect_remote_dns,
  host_length, https_only, host_not_dns, host_invalid, target_not_allowed, S, sendall, exact,
}

-- `host.decode("ascii").lower().rstrip(".")`
abbrev pub decode : Text → Text
decode raw = rstrip (λ c. c == b'.') (map lower_char raw)

-- `host == d or host.endswith("." + d)`
unfoldable pub under : Text → Text → Bool
unfolding eq_text ends_with
under host d = eq_text host d || ends_with host (b'.' ∷ d)

-- The guards of `_safe_host` on a decoded name.
unfoldable pub check_host : Text → List Text → Result GatewayError Text
check_host host domains =
    if not (ltb 0 (length host) && leb (length host) 253)
    then err host_invalid
    else if not (leb 2 (length (labels host)) && leb (length (labels host)) 12)
        || any (λ l. not (label_ok l)) (labels host)
    then err host_invalid
    else if not (any (under host) domains)
    then err target_not_allowed
    else ok host

unfoldable pub safe_host : Text → List Text → Result GatewayError Text
safe_host raw domains = if is_ascii raw then check_host (decode raw) domains else err host_not_dns

-- `_reply`
unfoldable pub reply : ℕ → S Unit
reply result = sendall (5 ∷ result ∷ 0 ∷ 1 ∷ 0 ∷ 0 ∷ 0 ∷ 0 ∷ 0 ∷ 0 ∷ [])

-- `if test: _reply(conn, code); raise e`
unfoldable pub refuse_when : Bool → ℕ → GatewayError → S Unit
refuse_when test code e = if test then (do reply code; raise e) else pure tt

-- `data[0]` of the one byte that `_exact(conn, 1)` gives.
abbrev pub first : Text → ℕ
first [] = 0
first (b ∷ data_) = b

-- `int.from_bytes(data, "big")` of two bytes
abbrev pub from_bytes : Text → ℕ
from_bytes (a ∷ b ∷ data_) = 256 * a + b
from_bytes data_ = first data_

unfoldable pub read_methods : S Unit
read_methods = do
  version ← exact 1
  raise_when (not (eq_text version (5 ∷ []))) socks_version
  count ← exact 1
  raise_when (not (leb 1 (first count) && leb (first count) 8)) method_count_invalid
  methods ← exact (first count)
  if not (any (λ m. m == 0) methods)
      then (do sendall (5 ∷ 255 ∷ []); raise noauth_required)
      else sendall (5 ∷ 0 ∷ [])

-- From `header = _exact(conn, 4)` on: the host as it came, when the port is 443.
unfoldable pub read_target : S Text
read_target = do
  header ← exact 4
  refuse_when (not (eq_text header (5 ∷ 1 ∷ 0 ∷ 3 ∷ []))) 7 only_connect_remote_dns
  count ← exact 1
  refuse_when (ltb (first count) 3) 8 host_length
  raw ← exact (first count)
  port ← exact 2
  refuse_when (not (from_bytes port == 443)) 2 https_only
  pure raw

-- `try: _safe_host(...)  except TailnetError: _reply(conn, 2); raise`
unfoldable pub admit_host : Text → List Text → S Text
admit_host raw domains = except (lift (safe_host raw domains)) (λ e. do reply 2; raise e)

-- `_read_request`: the host, as the port that it returns too is 443.
unfoldable pub read_request : List Text → S Text
read_request domains = do read_methods; raw ← read_target; admit_host raw domains
