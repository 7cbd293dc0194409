-- ===== src/Selective/Tests.antt =====
-- The theorems on crossplatform/linux/selective_tunnel.py at concrete inputs.
use free_net_hub.Prelude.{
  ◌<◌, ◌≡◌, ◌≢◌, refl, ◌↔◌, true, false, none, some, List, [], ◌∷◌, arith, length, ltb, Result, ok,
  err, Untyped, typed, if◌then◌else◌,
}
use free_net_hub.Prelude.Faults.{Env, Ends}
use free_net_hub.Text.{
  Text, Tables, text, join, split_on, strip, lower, upper, split_runs, encode_idna, elem,
  starts_with, ends_with, eq_text, decimal,
}
use free_net_hub.Hosts.{label_ok, shape_ok, has_local_suffix, is_numeric, is_public_suffix}
use free_net_hub.Prelude.Exec.{◌>>=◌, raise_when, except}
use free_net_hub.Prelude.Faults.{attempt, assign, query, poll}
use free_net_hub.Selective.Domains.{
  collect, admit, screen, append_new, is_separator, drop_wildcard, drop_final_dot,
}
use free_net_hub.Selective.Pac.{pac_script, port_ok, dump, script_head, script_loop, script_tail}
use free_net_hub.Selective.World.{
  base_url, pac_url, get_mode, get_url, set_mode, set_url, write_pac, write_unit, write_policy,
  read_policy, daemon_reload, enable_service, pac_online, served,
}
use free_net_hub.Selective.Arguments.{methods, is_ours, restore_point, same_request, service_text}
use free_net_hub.Selective.Apply.{
  probe, wait_online, new_policy, publish, install, change, already_applied, apply_over,
  apply_checked,
}
use free_net_hub.Text.Affix.{Distinct}
use free_net_hub.Hosts.Labels.{IsLabel, label_ok_iff}
use free_net_hub.Hosts.Fixed.{IsShaped, shape_ok-IsShaped}
use free_net_hub.Selective.Domains.{parse_domains, parse_current, merge_domains, domain_limit}
use free_net_hub.Selective.Domains.Canonical.{IsCanonical, parse_domains-IsCanonical}
use free_net_hub.Selective.Domains.Reparse.{parse_domains_stable}
use free_net_hub.Selective.Domains.Merge.{IsUnion, merge_domains-IsUnion}
use free_net_hub.Selective.Pac.{socks5, direct, find_proxy, script}
use free_net_hub.Selective.Pac.Routes.{Covered, find_proxy-Covered}
use free_net_hub.Selective.Pac.Size.{length-script}
use free_net_hub.Selective.World.{
  World, Policy, stored, auto, Host, manual, absent, no_policy, Fault,
}
use free_net_hub.Selective.Arguments.{Wanted, check_arguments}
use free_net_hub.Selective.Apply.{Applied, enabled, apply}
use free_net_hub.Selective.Apply.Change.{Applies, SameOutside}
use free_net_hub.Selective.Apply.Atomic.{apply_atomic}
use free_net_hub.Selective.Disable.{
  disabled, disable_partial, disable_bound, disable_url, restore_from, restore, disable,
}
use free_net_hub.Selective.Disable.Outcomes.{Disables, disable_outcomes}
use free_net_hub.Selective.Disable.RoundTrip.{IsBack, apply-disable_round_trip}

abbrev tables : Tables
tables = record { lower_other = λ s. s; upper_other = λ s. s; idna_other = λ s. none }

abbrev host : Host
host = record {
  tables = tables;
  digest = λ s. text "0123456789abcdef";
  helper = text "/opt/selective_tunnel.py";
}

abbrev given : Untyped Text
given = typed (text "Example.com, *.stripe.com.;example.com")

abbrev parsed : List Text
parsed = text "example.com" ∷ text "stripe.com" ∷ []

abbrev fresh : World
fresh = record {
  policy = absent;
  pac = none;
  unit = none;
  running = false;
  mode = manual;
  url = text "http://corp/proxy.pac";
  changed_proxy = false;
}

given_parses : parse_domains tables given ≡ ok parsed
unfolding parse_domains collect admit screen append_new is_separator split_runs strip drop_wildcard
    drop_final_dot lower encode_idna shape_ok has_local_suffix is_numeric is_public_suffix elem
    starts_with ends_with
given_parses = refl

parse_domains-IsCanonical_example : IsCanonical parsed × (parsed ≢ [])
parse_domains-IsCanonical_example = parse_domains-IsCanonical tables given given_parses

parse_domains_stable_example : parse_domains tables (typed (join b'\n' parsed)) ≡ ok parsed
parse_domains_stable_example = parse_domains_stable tables given given_parses

abbrev extra : Untyped Text
extra = typed (text "stripe.com example.org")

abbrev added : List Text
added = text "stripe.com" ∷ text "example.org" ∷ []

current_parses : parse_current tables given ≡ ok parsed
unfolding parse_current strip
current_parses = given_parses

extra_parses : parse_domains tables extra ≡ ok added
unfolding parse_domains collect admit screen append_new is_separator split_runs strip drop_wildcard
    drop_final_dot lower encode_idna shape_ok has_local_suffix is_numeric is_public_suffix elem
    starts_with ends_with
extra_parses = refl

merge_domains-IsUnion_example :
    (ds : List Text) × IsUnion parsed added ds
    × Distinct ds
    × (merge_domains tables given extra ≡ (if ltb 64 (length ds) then err domain_limit else ok ds))
merge_domains-IsUnion_example =
    merge_domains-IsUnion tables given extra parsed added current_parses extra_parses

subdomain-IsShaped : IsShaped (text "api.stripe.com")
unfolding split_on
subdomain-IsShaped = shape_ok-IsShaped (text "api.stripe.com") (unfold shape_ok in refl)

find_proxy-Covered_example :
    ((find_proxy tables parsed 9150 (text "api.stripe.com") ≡ socks5 9150)
      ↔ Covered parsed (text "api.stripe.com"))
    × ((find_proxy tables parsed 9150 (text "api.stripe.com") ≡ direct)
        ↔ (¬ Covered parsed (text "api.stripe.com")))
find_proxy-Covered_example =
    find_proxy-Covered tables parsed 9150 (text "api.stripe.com") subdomain-IsShaped

length-script_example : length (script parsed 9150) < 32768
length-script_example = length-script parsed 9150 parse_domains-IsCanonical_example.0 (omega arith)

label_ok_iff_example : (label_ok (text "xn--p1ai") ≡ true) ↔ IsLabel (text "xn--p1ai")
label_ok_iff_example = label_ok_iff (text "xn--p1ai")

-- The seventh command from now on fails.
abbrev failing : Env World
failing = record { faults = false ∷ false ∷ false ∷ false ∷ false ∷ false ∷ true ∷ []; now = fresh }

apply_atomic_example :
    Ends
      (λ r env'.
        (x : Wanted) × (check_arguments host given (typed 9150) (text "tor") ≡ ok x)
        × Applies host x fresh r env'.now)
      (λ e env'. SameOutside fresh env'.now)
      (apply host given (typed 9150) (text "tor") failing)
apply_atomic_example = apply_atomic host given (typed 9150) (text "tor") failing tt

abbrev on : Policy
on = record {
  enabled = true;
  domains = parsed;
  method = text "TOR";
  proxy_port = 9150;
  previous = some (record { mode = manual; url = text "http://corp/proxy.pac" });
  pac_url = some (text "http://127.0.0.1:19416/route.pac?v=0");
}

abbrev tunnelled : World
tunnelled = record fresh {
  policy = stored on;
  running = true;
  mode = auto;
  url = text "http://127.0.0.1:19416/route.pac?v=0";
}

-- The mode cannot be set.
abbrev stuck : Env World
stuck = record { faults = false ∷ false ∷ false ∷ false ∷ true ∷ []; now = tunnelled }

disable-partial : disable stuck ≡ (
  ok disable_partial,
  record { faults = []; now = record tunnelled { url = text "http://corp/proxy.pac" } },
)
unfolding disable disable_bound disable_url restore_from restore read_policy get_mode get_url
    set_mode set_url eq_text attempt query raise_when except ◌>>=◌
disable-partial = refl

disable_outcomes_example :
    Ends (λ r env'. Disables tunnelled r env'.now) (λ e env'. env'.now ≡ tunnelled) (disable stuck)
disable_outcomes_example = disable_outcomes stuck

abbrev calm : Env World
calm = record { faults = []; now = fresh }

abbrev done : Result Fault Applied × Env World
done = apply host given (typed 9150) (text "tor") calm

done-enabled : done ≡ (ok enabled, done.1)
unfolding parse_domains collect admit screen append_new is_separator split_runs strip drop_wildcard
    drop_final_dot lower encode_idna shape_ok has_local_suffix is_numeric is_public_suffix elem
    starts_with ends_with upper decimal eq_text ◌>>=◌ raise_when except attempt assign query poll
    pac_script port_ok dump script script_head script_loop script_tail base_url pac_url get_mode
    get_url set_mode set_url write_pac write_unit write_policy read_policy daemon_reload
    enable_service pac_online served methods is_ours restore_point same_request service_text
    check_arguments probe wait_online new_policy publish install change already_applied apply_over
    apply_checked apply join
done-enabled = refl

apply-disable_round_trip_example :
    Ends
      (λ r last.
        (r ≡ disabled)
        × IsBack (record { mode = manual; url = text "http://corp/proxy.pac" }) last.now)
      (λ _ _. ⊥)
      (disable (record { faults = []; now = done.1.now }))
apply-disable_round_trip_example =
    apply-disable_round_trip host given (typed 9150) (text "tor") calm done.1 no_policy [] tt refl
      refl done-enabled tt
