-- ===== src/Sites.antt =====
-- `host_from_url` and `diagnose_403_site`, which crossplatform/linux/selective_tunnel.py and
-- app/selective_route_windows.py have alike but for the guard on the provider: the host of a pasted
-- link, and whether the tunnel would help with a 403.
pub mod Verdicts
mod Tests
use free_net_hub.Prelude.{
  ℕ, zero, suc, ◌+◌, ◌-◌, ◌*◌, ◌++◌, Bool, true, false, not, ◌&&◌, ◌||◌, Option, none, some, List,
  [], ◌∷◌, leb, ltb, ◌==◌, any, all, length, if◌then◌else◌, Result, ok, err, ◌>>=◌, ◌>>◌, raise_if,
  Untyped, typed, ill_typed, is_nil,
}
use free_net_hub.Text.{Text, Tables, text, eq_text, starts_with, strip, is_ascii, upper}
use free_net_hub.Hosts.{is_digit}
use free_net_hub.Selective.Domains.{DomainError, parse_domains}
use free_net_hub.Route.{normalize_domains}
use free_net_hub.Hosts.Address.{IpAddress}
use free_net_hub.Bridge.{BridgeError, validate_proxy_host}

pub data SiteError : Type 0 where
  site_url_invalid https_public_host_required ip_target_denied proxy_port_invalid : SiteError
  split_failed index_error : SiteError
  in_list : DomainError → SiteError
  in_provider : BridgeError → SiteError

-- The attributes of what `urlsplit` returns; `port` is none where reading it raises.
pub record SiteUrl : Type 0 where
  pub scheme : Text
  pub username : Option Text
  pub password : Option Text
  pub hostname : Option Text
  pub port : Option (Option ℕ)

-- What a run of curl leaves: its exit code and its output, or nothing where it raises.
pub data Probe : Type 0 where
  ran : ℕ → Text → Probe
  raised : Probe

-- `urlsplit`, which may raise; whether `ipaddress.ip_address` accepts a text; the number that a text
-- outside ASCII is, if it is decimal; and curl, asked directly or through the tunnel.
pub record Network : Type 0 where
  pub urlsplit : Text → Option SiteUrl
  pub is_ip : Text → Bool
  pub decimal_other : Text → Option ℕ
  pub curl : Bool → Text → Probe

-- `part in s`
unfoldable pub contains : Text → Text → Bool
unfolding starts_with
contains part [] = is_nil part
contains part (c ∷ s) = starts_with (c ∷ s) part || contains part s

-- `any(ch in text for ch in ("\r", "\n", "\t", "\\", " "))`
abbrev pub is_odd : ℕ → Bool
is_odd c = c == 13 || (c == 10 || (c == 9 || (c == 92 || c == 32)))

abbrev pub with_scheme : Text → Text
with_scheme s = if contains (text "://") s then s else text "https://" ++ s

abbrev pub given : Option Text → Bool
given none = false
given (some s) = not (is_nil s)

abbrev pub or_empty : Option Text → Text
or_empty none = []
or_empty (some s) = s

abbrev pub valid_port : Option ℕ → Bool
valid_port none = true
valid_port (some n) = n == 443

abbrev pub or_site_error : {A : Type 0} → SiteError → Option A → Result SiteError A
or_site_error e none = err e
or_site_error e (some a) = ok a

-- `parse_domains(host)[0]`
abbrev pub first_domain : Result DomainError (List Text) → Result SiteError Text
first_domain (err e) = err (in_list e)
first_domain (ok []) = err index_error
first_domain (ok (d ∷ ds)) = ok d

unfoldable pub host_from_url :
    Network → (Untyped Text → Result DomainError (List Text)) → Untyped Text → Result SiteError Text
unfolding contains eq_text
host_from_url net parse ill_typed = err site_url_invalid
host_from_url net parse (typed value) = do
  let s = strip value
  raise_if (not (ltb 0 (length s) && leb (length s) 2048)) site_url_invalid
  raise_if (any is_odd s) site_url_invalid
  u ← or_site_error split_failed (net.urlsplit (with_scheme s))
  port ← or_site_error site_url_invalid u.port
  let host = or_empty u.hostname
  raise_if
      (not (eq_text u.scheme (text "https"))
        || (is_nil host || (given u.username || (given u.password || not (valid_port port)))))
      https_public_host_required
  raise_if (net.is_ip host) ip_target_denied
  first_domain (parse (typed host))

abbrev pub value_of : ℕ → Text → ℕ
value_of n [] = n
value_of n (c ∷ s) = value_of (10 * n + (c - b'0')) s

abbrev pub or_no_code : Option ℕ → ℕ
or_no_code none = 0
or_no_code (some n) = n

-- `int(status) if result.returncode == 0 and status.isdecimal() and len(status) == 3 else 0`
unfoldable pub code_of : Network → Probe → ℕ
code_of net raised = 0
code_of net (ran returncode stdout) =
    let status = strip stdout in
    if not (returncode == 0 && length status == 3)
    then 0
    else if is_ascii status
    then if all is_digit status then value_of 0 status else 0
    else or_no_code (net.decimal_other status)

pub data Verdict : Type 0 where
  regional_403_improved both_routes_forbidden tunnel_forbidden probe_inconclusive : Verdict
  no_unauthenticated_origin_403 : Verdict

-- `tunneled in (200, 201, 202, 204, 301, 302, 303, 307, 308)`
abbrev pub answers : ℕ → Bool
answers n = any (λ m. n == m) (200 ∷ 201 ∷ 202 ∷ 204 ∷ 301 ∷ 302 ∷ 303 ∷ 307 ∷ 308 ∷ [])

unfoldable pub suggested : ℕ → ℕ → Bool
suggested direct tunneled = direct == 403 && answers tunneled

unfoldable pub verdict : ℕ → ℕ → Verdict
verdict direct tunneled =
    if suggested direct tunneled
    then regional_403_improved
    else if direct == 403 && tunneled == 403
    then both_routes_forbidden
    else if tunneled == 403
    then tunnel_forbidden
    else if direct == 0 || tunneled == 0
    then probe_inconclusive
    else no_unauthenticated_origin_403

-- What of the returned `dict` depends on the call.
pub record Diagnosis : Type 0 where
  pub host : Text
  pub direct_code : ℕ
  pub tunnel_code : ℕ
  pub suggest_add : Bool
  pub result : Verdict

-- From the two probes on.
unfoldable pub diagnose : Network → Text → Diagnosis
diagnose net host =
    let direct = code_of net (net.curl false host) in
    let tunneled = code_of net (net.curl true host) in
    record {
      host = host;
      direct_code = direct;
      tunnel_code = tunneled;
      suggest_add = suggested direct tunneled;
      result = verdict direct tunneled;
    }

-- `type(proxy_port) is not int or not 1024 <= proxy_port <= 65535`
abbrev pub port_refused : Untyped ℕ → Bool
port_refused (typed port) = not (leb 1024 port && leb port 65535)
port_refused ill_typed = true

-- `diagnose_403_site` on Linux
unfoldable pub diagnose_403_site :
    Tables → Network → Untyped Text → Untyped ℕ → Result SiteError Diagnosis
diagnose_403_site t net value port = do
  host ← host_from_url net (parse_domains t) value
  raise_if (port_refused port) proxy_port_invalid
  ok (diagnose net host)

abbrev pub from_provider : Result BridgeError Text → Result SiteError Text
from_provider (ok a) = ok a
from_provider (err e) = err (in_provider e)

-- `host_from_url` and `diagnose_403_site` on Windows, where the provider may be one of the tailnet.
unfoldable pub windows_host : Tables → Network → Untyped Text → Result SiteError Text
windows_host t net value = host_from_url net (normalize_domains t) value

unfoldable pub windows_diagnosis :
    Tables
    → Network
    → (Text → Option IpAddress)
    → Untyped Text
    → Untyped ℕ
    → Text
    → Text
    → Result SiteError Diagnosis
windows_diagnosis t net ip_address value port proxy_host method = do
  host ← windows_host t net value
  from_provider (validate_proxy_host ip_address (upper t method) proxy_host port)
  ok (diagnose net host)
