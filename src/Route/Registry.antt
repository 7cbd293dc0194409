-- ===== src/Route/Registry.antt =====
-- What app/selective_route_windows.py changes outside the process: two values of the registry, its
-- state file, its PAC file and its service; and the commands on them, each of which may fail.
pub mod Commands
use free_net_hub.Prelude.{
  List, Untyped, ill_typed, ℕ, zero, suc, Bool, true, false, not, ◌&&◌, ◌||◌, Option, none, some,
  [], ◌==◌, is_nil, if◌then◌else◌,
}
use free_net_hub.Prelude.Exec.{Exec, pure, raise, raise_when, ◌>>=◌, ◌>>◌, except}
use free_net_hub.Prelude.Faults.{Env, attempt, query, poll}
use free_net_hub.Text.{Text, text, eq_text}

-- A value that `QueryValueEx` returns; the module handles texts and numbers.
pub data Value : Type 0 where
  words : Text → Value
  number : ℕ → Value
  unsupported : Value

-- A value and its type, where the name is present.
pub data Setting : Type 0 where
  missing : Setting
  present : Value → ℕ → Setting

-- `MUTATED_VALUES`: `AutoConfigURL` and `ProxyEnable`
pub record Settings : Type 0 where
  pub auto_config : Setting
  pub proxy_enable : Setting

-- The state file, as the module writes it; a missing key is `none`, `false`,
-- empty or, for `proxyHost`, what `get` has for it.
pub record State : Type 0 where
  pub enabled : Bool
  pub in_flight : Bool
  pub pac_url : Text
  pub server_token : Text
  pub domains : List Text
  pub method : Text
  pub proxy_port : Untyped ℕ
  pub proxy_host : Text
  pub previous : Option Settings

pub data StateFile : Type 0 where
  absent corrupt : StateFile
  stored : State → StateFile

pub record World : Type 0 where
  pub settings : Settings
  pub state : StateFile
  pub pac : Option Text
  pub running : Bool

pub data Fault : Type 0 where
  state_corrupt registry_failed value_unsupported snapshot_invalid refresh_unverified : Fault
  restore_unverified write_failed pac_unreadable : Fault

abbrev pub M : Type 0 → Type 0
M A = Exec (Env World) Fault A

abbrev pub no_state : State
no_state = record {
  enabled = false;
  in_flight = false;
  pac_url = [];
  server_token = [];
  domains = [];
  method = [];
  proxy_port = ill_typed;
  proxy_host = text "127.0.0.1";
  previous = none;
}

-- `_load_state`
abbrev pub state_of : StateFile → M State
state_of absent = pure no_state
state_of corrupt = raise state_corrupt
state_of (stored s) = pure s

unfoldable pub load_state : M State
load_state = do file ← query (λ w. w.state) state_corrupt; state_of file

unfoldable pub write_state : State → M Unit
write_state s = attempt (λ w. record w { state = stored s }) write_failed

abbrev pub is_unsupported : Setting → Bool
is_unsupported (present unsupported kind) = true
is_unsupported _ = false

-- `_snapshot`: each value is read by a command of its own.
unfoldable pub snapshot : M Settings
snapshot = do
  url ← query (λ w. w.settings.auto_config) registry_failed
  raise_when (is_unsupported url) value_unsupported
  enable ← query (λ w. w.settings.proxy_enable) registry_failed
  raise_when (is_unsupported enable) value_unsupported
  pure record { auto_config = url; proxy_enable = enable }

-- `_write_value` of either name
unfoldable pub write_auto_config : Setting → M Unit
write_auto_config v =
    attempt (λ w. record w { settings = record (w.settings) { auto_config = v } }) registry_failed

unfoldable pub write_proxy_enable : Setting → M Unit
write_proxy_enable v =
    attempt (λ w. record w { settings = record (w.settings) { proxy_enable = v } }) registry_failed

-- `_restore`, where nothing is saved, a value of another type is saved, or both are good.
unfoldable pub restore : Option Settings → M Unit
restore none = raise snapshot_invalid
restore (some s) = do
  raise_when (is_unsupported s.auto_config || is_unsupported s.proxy_enable) snapshot_invalid
  write_auto_config s.auto_config
  write_proxy_enable s.proxy_enable

-- `_notify`: two calls, which change nothing that is modelled.
unfoldable pub notify : M Unit
notify = do attempt (λ w. w) refresh_unverified; attempt (λ w. w) refresh_unverified

abbrev pub eq_value : Value → Value → Bool
eq_value (words a) (words b) = eq_text a b
eq_value (number a) (number b) = a == b
eq_value _ _ = false

unfoldable pub eq_setting : Setting → Setting → Bool
unfolding eq_text
eq_setting missing missing = true
eq_setting (present v k) (present w l) = eq_value v w && k == l
eq_setting _ _ = false

unfoldable pub eq_settings : Settings → Settings → Bool
unfolding eq_setting
eq_settings a b = eq_setting a.auto_config b.auto_config && eq_setting a.proxy_enable b.proxy_enable

-- `_active_registry`
unfoldable pub active_registry : Text → Settings
active_registry url = record {
  auto_config = present (words url) 1;
  proxy_enable = present (number 0) 4;
}

abbrev pub token_in : StateFile → Text
token_in (stored s) = s.server_token
token_in _ = []

-- The two listeners answer to the token that the state file has.
unfoldable pub answers_to : Text → World → Bool
unfolding eq_text
answers_to token w = w.running && (not (is_nil token) && eq_text token (token_in w.state))

-- `_health` and `_bridge_health`, which ask the two listeners of one process.
unfoldable pub health : Text → M Bool
health token = poll (answers_to token)

-- The request to shut down: it is accepted, and ends the process at once, or it is not.
unfoldable pub shut_down : Text → M Bool
shut_down token = do
  accepted ← health token
  (if accepted
      then (do attempt (λ w. record w { running = false }) registry_failed; pure true)
      else pure false)

-- The loop that waits for both listeners to fall silent.
unfoldable pub wait_stopped : ℕ → Text → M Bool
wait_stopped zero token = pure false
wait_stopped (suc n) token = do
  up ← health token
  bridge ← (if up then pure true else health token)
  (if bridge then wait_stopped n token else pure true)

-- `_stop_service`
unfoldable pub stop_service : Text → M Bool
stop_service token = do
  up ← health token
  (if up
      then except
          (do accepted ← shut_down token; (if accepted then wait_stopped 30 token else pure false))
          (λ e. pure false)
      else (do bridge ← health token; pure (not bridge)))
