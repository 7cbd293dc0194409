-- ===== src/Route/Status.antt =====
-- `status` of app/selective_route_windows.py.
pub mod Truth
use free_net_hub.Prelude.{
  ℕ, Bool, true, false, not, ◌&&◌, ◌||◌, ◌++◌, Option, none, some, List, leb, length, if◌then◌else◌,
  Result, ok, err, Untyped, typed, ill_typed, [],
}
use free_net_hub.Prelude.Exec.{pure, ◌>>=◌}
use free_net_hub.Prelude.Faults.{query, poll}
use free_net_hub.Text.{Text, text, eq_text, starts_with}
use free_net_hub.Text.Utf8.{utf8_length}
use free_net_hub.Hosts.Address.{IpAddress}
use free_net_hub.Bridge.{BridgeError, validate_proxy_host}
use free_net_hub.Route.Registry.{
  Value, words, Setting, present, missing, Settings, State, World, M, pac_unreadable, load_state,
  snapshot, eq_settings, active_registry, health,
}

-- What the module finds outside: the digest of a text, as the address of the script has it, what
-- `ipaddress.ip_address` makes of a text, and whether a SOCKS5 server answers.
pub record Outside : Type 0 where
  pub digest : Text → Text
  pub ip_address : Text → Option IpAddress
  pub greets : Text → Untyped ℕ → Bool

abbrev pub script_url : Text
script_url = text "http://127.0.0.1:19416/route.pac"

pub data StatusCause : Type 0 where
  no_error pending_recovery orphan_pac registry_drift script_unavailable : StatusCause

pub record RouteStatus : Type 0 where
  pub is_ok : Bool
  pub enabled : Bool
  pub pending : Bool
  pub healthy : Bool
  pub bound : Bool
  pub domains : List Text
  pub method : Text
  pub proxy_port : Untyped ℕ
  pub proxy_host : Text
  pub error : StatusCause

-- The answer of `do_GET` to `pac_url(source)` is the script wanted, in 16384 bytes at most.
abbrev pub answers_with : Outside → Text → Option Text → Bool
answers_with o source none = false
answers_with o source (some file) =
    eq_text (o.digest source) (o.digest file)
    && (leb (utf8_length source) 16384 && eq_text file source)

unfoldable pub serves : Outside → Text → World → Bool
unfolding eq_text
serves o source w = w.running && answers_with o source w.pac

-- `PAC_FILE.is_file() and _pac_ready(PAC_FILE.read_text(encoding="utf-8"))`
abbrev pub content_ready : Outside → Option Text → M Bool
content_ready o none = pure false
content_ready o (some source) = poll (serves o source)

unfoldable pub pac_ready : Outside → M Bool
pac_ready o = do file ← query (λ w. w.pac) pac_unreadable; content_ready o file

abbrev pub greets_at : Outside → Untyped ℕ → Result BridgeError Text → Bool
greets_at o port (err e) = false
greets_at o port (ok host) = o.greets host port

-- `_check_tailnet_socks`
unfoldable pub tailnet_greets : Outside → State → Bool
unfolding validate_proxy_host
tailnet_greets o s =
    greets_at o s.proxy_port
      (validate_proxy_host o.ip_address (text "TAILNET") s.proxy_host s.proxy_port)

unfoldable pub measure_health : Outside → State → Bool → M Bool
measure_health o s bound = do
  up ← if bound then health s.server_token else pure false
  bridge ← if up then health s.server_token else pure false
  ready ← if bridge then pac_ready o else pure false
  (if ready && eq_text s.method (text "TAILNET")
      then poll (λ w. tailnet_greets o s)
      else pure ready)

-- `actual == URL or actual.startswith(URL + "?v=")`, of a text; a missing value is the empty text.
abbrev pub is_script_url : Setting → Bool
is_script_url (present (words actual) kind) =
    eq_text actual script_url || starts_with actual (script_url ++ text "?v=")
is_script_url _ = false

unfoldable pub is_orphan : State → Settings → Bool
unfolding eq_text starts_with
is_orphan s settings = not s.enabled && is_script_url settings.auto_config

abbrev pub in_flight_status : State → RouteStatus
in_flight_status s = record {
  is_ok = false;
  enabled = s.enabled;
  pending = true;
  healthy = false;
  bound = false;
  domains = [];
  method = [];
  proxy_port = ill_typed;
  proxy_host = [];
  error = pending_recovery;
}

unfoldable pub route_report : State → Bool → Bool → Bool → RouteStatus
route_report s orphan bound healthy = record {
  is_ok = if s.enabled then healthy else not orphan;
  enabled = s.enabled;
  pending = false;
  healthy = healthy;
  bound = bound;
  domains = s.domains;
  method = s.method;
  proxy_port = s.proxy_port;
  proxy_host = s.proxy_host;
  error =
      if orphan
      then orphan_pac
      else if s.enabled && not bound
      then registry_drift
      else if s.enabled && not healthy
      then script_unavailable
      else no_error;
}

unfoldable pub settled_status : Outside → State → Settings → M RouteStatus
settled_status o s settings = do
  let bound = s.enabled && eq_settings settings (active_registry s.pac_url)
  healthy ← measure_health o s bound
  pure (route_report s (is_orphan s settings) bound healthy)

unfoldable pub status_route : Outside → M RouteStatus
status_route o = do
  s ← load_state
  settings ← snapshot
  (if s.in_flight then pure (in_flight_status s) else settled_status o s settings)
