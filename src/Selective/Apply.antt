-- ===== src/Selective/Apply.antt =====
-- `apply` of crossplatform/linux/selective_tunnel.py: checks, then the changes, then, after an
-- exception, the way back.
pub mod Steps
pub mod Undo
pub mod Change
pub mod Atomic
use free_net_hub.Prelude.{
  ℕ, zero, suc, Bool, true, false, ◌&&◌, ◌||◌, not, any, Option, none, some, List, [], ◌∷◌, ◌++◌,
  leb, ltb, ◌==◌, all, length, if◌then◌else◌, Result, ok, err, Untyped, typed, ill_typed, is_nil,
}
use free_net_hub.Prelude.Exec.{Exec, pure, raise, lift, raise_when, ◌>>=◌, ◌>>◌, except}
use free_net_hub.Prelude.Faults.{Env, attempt, assign, query, look}
use free_net_hub.Text.{Text, Tables, text, eq_text, elem, upper, starts_with}
use free_net_hub.Selective.Domains.{parse_domains}
use free_net_hub.Selective.Pac.{
  PacError, domains, proxy_port_invalid, from_domains, pac_script, port_of,
}
use free_net_hub.Selective.World.{
  Mode, off, auto, manual, unknown, Saved, Policy, PolicyFile, stored, World, Fault, rejected,
  method_invalid, command_failed, settings_drift, proxy_foreign, baseline_invalid, proxy_unhealthy,
  path_unsafe, service_not_owned, write_failed, pac_server_not_ready, apply_unverified, key_missing,
  Host, M, base_url, pac_url, get_mode, get_url, set_mode, set_url, write_pac, remove_pac,
  write_unit, remove_unit, write_policy, read_policy, daemon_reload, enable_service,
  disable_service, eq_mode, pac_online,
}
use free_net_hub.Selective.Arguments.{
  Wanted, check_arguments, restore_point, known_mode, same_request, service_text,
}
use free_net_hub.Selective.Status.{Status, status, owned_url}

-- `_probe`: two tests of the SOCKS port that change nothing.
unfoldable pub probe : M Unit
probe = do attempt (λ w. w) proxy_unhealthy; attempt (λ w. w) proxy_unhealthy

-- The loop of polls: `false` is the `else` of the `for`.
unfoldable pub wait_online : Host → Text → ℕ → M Bool
wait_online h expected zero = pure false
wait_online h expected (suc polls) = do
  up ← pac_online h expected
  if up then pure true else wait_online h expected polls

-- What the handler of the exception needs to know of the state before.
pub record Old : Type 0 where
  pub enabled : Bool
  pub mode : Mode
  pub url : Text
  pub pac : Option Text
  pub created_service : Bool

abbrev pub when : Bool → M Unit → M Unit
when b m = if b then m else pure tt

-- `try: m  except Exception: pass`
abbrev pub quietly : M Unit → M Unit
quietly m = except m (λ e. pure tt)

unfoldable pub new_policy : Host → Wanted → Saved → Policy
unfolding pac_url upper
new_policy h x restore = record {
  enabled = true;
  domains = x.hosts;
  method = upper h.tables x.method;
  proxy_port = x.port;
  previous = some restore;
  pac_url = some (pac_url h x.content);
}

-- The body of the `try` behind the creation of the unit.
unfoldable pub publish : Host → Wanted → Saved → M Unit
publish h x restore = do
  write_pac x.content
  daemon_reload
  enable_service
  up ← wait_online h x.content 15
  raise_when (not up) pac_server_not_ready
  set_url (pac_url h x.content)
  assign (λ w. record w { changed_proxy = true })
  set_mode auto
  url ← get_url
  raise_when (not (eq_text url (pac_url h x.content))) apply_unverified
  mode ← get_mode
  raise_when (not (eq_mode mode auto)) apply_unverified
  write_policy (new_policy h x restore)

-- The body of the `try`.
unfoldable pub install : Host → Wanted → Saved → Text → Bool → M Unit
install h x restore unit created = do when created (write_unit unit); publish h x restore

unfoldable pub undo_url : Old → Text → M Unit
undo_url old new_url = do
  url ← get_url
  when (eq_text url new_url) (quietly (do set_url old.url; set_mode old.mode))

-- The first statement of the handler: the settings go back if they are still ours.
unfoldable pub undo_settings : Old → Text → M Unit
undo_settings old new_url = do
  changed ← look (λ w. w.changed_proxy)
  when changed (undo_url old new_url)

unfoldable pub undo_pac : Option Text → M Unit
undo_pac none = remove_pac
undo_pac (some content) = write_pac content

unfoldable pub undo_unit : Bool → M Unit
undo_unit created = when created (do remove_unit; quietly daemon_reload)

-- The handler of the `try`, which ends with `raise`.
unfoldable pub undo : Old → Text → Fault → M Unit
undo old new_url e = do
  undo_settings old new_url
  undo_pac old.pac
  when (not old.enabled) (quietly disable_service)
  undo_unit old.created_service
  raise e

pub data Applied : Type 0 where
  unchanged enabled : Applied

abbrev pub is_none : Option Text → Bool
is_none none = true
is_none (some a) = false

abbrev pub foreign_unit : Text → Option Text → Bool
foreign_unit unit none = false
foreign_unit unit (some there) = not (eq_text there unit)

-- From `unit = _service_text()` on.
unfoldable pub change : Host → Wanted → Policy → Saved → Mode → Text → M Applied
change h x p restore mode url = do
  unit ← lift (service_text h)
  there ← query (λ w. w.unit) write_failed
  raise_when (foreign_unit unit there) service_not_owned
  old_pac ← query (λ w. w.pac) write_failed
  let created = is_none there
  assign (λ w. record w { changed_proxy = false })
  except (install h x restore unit created) (
      undo
        (record {
          enabled = p.enabled;
          mode = mode;
          url = url;
          pac = old_pac;
          created_service = created;
        })
        (pac_url h x.content))
  pure enabled

-- The policy asks for the same already, and `status()["ok"]`.
unfoldable pub already_applied : Host → Policy → Wanted → M Bool
already_applied h p x = if same_request p x then (do s ← status h; pure s.is_ok) else pure false

-- From the two settings on.
unfoldable pub apply_over : Host → Wanted → Policy → M Applied
apply_over h x p = do
  mode ← get_mode
  url ← get_url
  restore ← lift (restore_point p mode url)
  raise_when (not (known_mode mode) || ltb 4096 (length url)) baseline_invalid
  probe
  known ← already_applied h p x
  if known then pure unchanged else change h x p restore mode url

-- After the checks of the arguments.
unfoldable pub apply_checked : Host → Wanted → M Applied
apply_checked h x = do p ← read_policy; apply_over h x p

unfoldable pub apply : Host → Untyped Text → Untyped ℕ → Text → M Applied
apply h given port method = do x ← lift (check_arguments h given port method); apply_checked h x
