-- ===== src/Route/Disable.antt =====
-- `disable` of app/selective_route_windows.py.
pub mod Outcomes
use free_net_hub.Prelude.{Bool, true, false, not, ◌&&◌, ◌||◌, Option, none, some, if◌then◌else◌}
use free_net_hub.Prelude.Exec.{pure, raise, raise_when, ◌>>=◌, ◌>>◌, except}
use free_net_hub.Route.Registry.{
  Settings, State, M, Fault, restore_unverified, load_state, write_state, snapshot, restore, notify,
  eq_settings, active_registry, stop_service,
}

-- The dictionary that `disable` returns; `restored` says whether the service has stopped, and
-- `restore_incomplete` also names the exception.
pub data Disabled : Type 0 where
  already_disabled server_still_active proxy_drift restore_incomplete cleaned_up : Disabled
  restored : Bool → Disabled

-- `active == restore`
abbrev pub eq_saved : Settings → Option Settings → Bool
eq_saved active none = false
eq_saved active (some s) = eq_settings active s

-- The state with nothing to go back to.
abbrev pub switched_off : State → State
switched_off s = record s { enabled = false; in_flight = false; previous = none }

-- Interrupted before the registry was written: only the service and the state are ours.
unfoldable pub clean_up : State → M Disabled
clean_up s = do
  stopped ← stop_service s.server_token
  (if not stopped
      then pure server_still_active
      else (do write_state (switched_off s); pure cleaned_up))

-- The body of the `try`.
unfoldable pub undo : State → M Disabled
undo s = do
  restore s.previous
  notify
  now ← snapshot
  raise_when (not (eq_saved now s.previous)) restore_unverified
  write_state (switched_off s)
  stopped ← stop_service s.server_token
  pure (restored stopped)

unfoldable pub disable_active : State → Settings → M Disabled
disable_active s active =
    if s.in_flight && eq_saved active s.previous
    then clean_up s
    else if not (eq_settings active (active_registry s.pac_url))
    then pure proxy_drift
    else except (undo s) (λ e. pure restore_incomplete)

unfoldable pub disable : M Disabled
disable = do
  s ← load_state
  (if not (s.enabled || s.in_flight)
      then pure already_disabled
      else (do active ← snapshot; disable_active s active))
