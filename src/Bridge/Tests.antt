-- ===== src/Bridge/Tests.antt =====
-- The theorems on app/selective_http_bridge.py at concrete inputs.
use free_net_hub.Prelude.{
  ℕ, ◌≤◌, ◌≡◌, ◌⊎◌, refl, Bool, false, if◌then◌else◌, Option, none, some, List, [], ◌∷◌, length, ok,
  Untyped, typed,
}
use free_net_hub.Text.{Text, Tables, text, eq_text, split_on, lower, rstrip, starts_with, ends_with}
use free_net_hub.Hosts.{label_ok}
use free_net_hub.Selective.Pac.Routes.{Covered}
use free_net_hub.Gateway.Request.{under}
use free_net_hub.Hosts.Address.{IpAddress, is_outside, IsTailnet}
use free_net_hub.Bridge.{
  tailnet_host, validate_proxy_host, screen_host, check_policy, normalize_connect_target,
}
use free_net_hub.Bridge.Targets.{
  IsTarget, normalize_connect_target-Covered, validate_proxy_host-stays,
}

abbrev tables : Tables
tables = record { lower_other = λ s. s; upper_other = λ s. s; idna_other = λ s. none }

abbrev is_ip : Text → Bool
is_ip host = false

abbrev host : Text
host = text "api.stripe.com"

abbrev policy : Untyped (List Text)
policy = typed (text "stripe.com" ∷ [])

target_passes : normalize_connect_target tables is_ip (text "API.stripe.com.:443") policy ≡ ok host
unfolding normalize_connect_target split_on lower rstrip screen_host check_policy starts_with
    ends_with label_ok under
target_passes = refl

normalize_connect_target-Covered_example :
    IsTarget is_ip host
    × ((ds : List Text) × (policy ≡ typed ds) × (length ds ≤ 64) × Covered ds host)
normalize_connect_target-Covered_example =
    normalize_connect_target-Covered tables is_ip (text "API.stripe.com.:443") policy target_passes

abbrev peer : Text
peer = text "100.64.0.2"

abbrev ip_address : Text → Option IpAddress
ip_address given =
    if eq_text given peer
    then some (record { version = 4; value = 1681915906; canonical = peer })
    else none

abbrev owned_port : Untyped ℕ
owned_port = typed 19551

tailnet_passes :
    validate_proxy_host ip_address (text "TAILNET") (text "100.64.0.2") owned_port
    ≡ ok (text "100.64.0.2")
unfolding validate_proxy_host tailnet_host is_outside eq_text
tailnet_passes = refl

validate_proxy_host-stays_example :
    (text "100.64.0.2" ≡ text "127.0.0.1")
    ⊎ ((text "TAILNET" ≡ text "TAILNET")
        × (owned_port ≡ typed 19551)
        × IsTailnet ip_address (text "100.64.0.2") (text "100.64.0.2"))
validate_proxy_host-stays_example =
    validate_proxy_host-stays ip_address (text "TAILNET") (text "100.64.0.2") owned_port
      tailnet_passes
