-- ===== src/Route/Tests.antt =====
-- A list that both tunnels read, and a Windows tunnel that is switched off.
use free_net_hub.Prelude.{◌≡◌, refl, true, false, none, some, List, [], ◌∷◌, ok, typed}
use free_net_hub.Prelude.Exec.{raise_when, ◌>>=◌, except}
use free_net_hub.Prelude.Faults.{Env, Ends, query, poll, attempt}
use free_net_hub.Text.{
  Text, Tables, text, join, strip, lower, split_runs, encode_idna, elem, starts_with, ends_with,
  eq_text,
}
use free_net_hub.Hosts.{shape_ok, has_local_suffix, is_numeric, is_public_suffix}
use free_net_hub.Selective.Domains.{
  parse_domains, collect, admit, screen, append_new, is_separator, drop_wildcard, drop_final_dot,
}
use free_net_hub.Route.{normalize_domains}
use free_net_hub.Route.Portable.{normalize_domains-parse_domains}
use free_net_hub.Route.Registry.{
  Settings, missing, present, number, State, stored, World, active_registry, eq_settings,
  eq_setting, write_state, load_state, snapshot, restore, notify, write_auto_config,
  write_proxy_enable, health, shut_down, wait_stopped, stop_service, answers_to,
}
use free_net_hub.Route.Disable.{disable, disable_active, undo, restored, switched_off}
use free_net_hub.Route.Registry.Commands.{Kept}
use free_net_hub.Route.Disable.Outcomes.{Disables, disable-Disables}
use free_net_hub.Route.Status.{
  Outside, route_report, is_orphan, status_route, settled_status, measure_health, pac_ready, serves,
}
use free_net_hub.Route.Status.Truth.{IsTrue, status_route-IsTrue}
use free_net_hub.Text.Utf8.{utf8_length}

abbrev tables : Tables
tables = record { lower_other = λ s. s; upper_other = λ s. s; idna_other = λ s. none }

abbrev two : List Text
two = text "b.net" ∷ text "a.org" ∷ []

read_two : parse_domains tables (typed (text "*.B.net; a.org. b.net")) ≡ ok two
unfolding parse_domains collect admit screen append_new is_separator split_runs strip drop_wildcard
    drop_final_dot lower encode_idna shape_ok has_local_suffix is_numeric is_public_suffix elem
    starts_with ends_with
read_two = refl

normalize_domains-parse_domains_example : normalize_domains tables (typed (join 10 two)) ≡ ok two
normalize_domains-parse_domains_example =
    normalize_domains-parse_domains tables (typed (text "*.B.net; a.org. b.net")) read_two

abbrev url : Text
url = text "http://127.0.0.1:19416/route.pac?v=0"

abbrev before : Settings
before = record { auto_config = missing; proxy_enable = present (number 1) 4 }

abbrev on : State
on = record {
  enabled = true;
  in_flight = false;
  pac_url = url;
  server_token = text "k";
  domains = two;
  method = text "CFON";
  proxy_port = typed 9150;
  proxy_host = text "127.0.0.1";
  previous = some before;
}

abbrev tunnelled : World
tunnelled = record { settings = active_registry url; state = stored on; pac = none; running = true }

abbrev calm : Env World
calm = record { faults = []; now = tunnelled }

abbrev off : World
off = record { settings = before; state = stored (switched_off on); pac = none; running = false }

disable-restored : disable calm ≡ (ok (restored true), record { faults = []; now = off })
unfolding disable disable_active undo load_state snapshot restore notify write_auto_config
    write_proxy_enable write_state health shut_down wait_stopped stop_service answers_to eq_settings
    eq_setting eq_text active_registry query poll attempt raise_when except ◌>>=◌
disable-restored = refl

-- The write of the second value fails.
abbrev interrupted : Env World
interrupted = record { faults = false ∷ false ∷ false ∷ false ∷ true ∷ []; now = tunnelled }

disable-Disables_example :
    Ends
      (λ r env'. Disables tunnelled r env'.now)
      (λ e env'. Kept tunnelled env'.now)
      (disable interrupted)
disable-Disables_example = disable-Disables interrupted

abbrev outside : Outside
outside = record { digest = λ s. []; ip_address = λ s. none; greets = λ h p. false }

abbrev serving : World
serving = record tunnelled { pac = some (text "x") }

status_route-healthy :
    status_route outside (record { faults = []; now = serving })
    ≡ (ok (route_report on false true true), record { faults = []; now = serving })
unfolding status_route settled_status measure_health pac_ready serves is_orphan load_state snapshot
    health answers_to eq_settings eq_setting eq_text active_registry query poll attempt raise_when
    except ◌>>=◌ utf8_length
status_route-healthy = refl

status_route-IsTrue_example :
    Ends
      (λ r env'. IsTrue outside serving r × (env'.now ≡ serving))
      (λ e env'. env'.now ≡ serving)
      (status_route outside (record { faults = false ∷ false ∷ false ∷ true ∷ []; now = serving }))
status_route-IsTrue_example =
    status_route-IsTrue outside
      (record { faults = false ∷ false ∷ false ∷ true ∷ []; now = serving })
