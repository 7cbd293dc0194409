-- ===== src/Selective/World.antt =====
-- What crossplatform/linux/selective_tunnel.py keeps outside the process: its policy file, the PAC
-- file, the systemd unit and the two GNOME settings; and the commands on them, each of which may
-- fail.
use free_net_hub.Prelude.{ℕ, Bool, true, false, ◌&&◌, Option, none, some, List, [], ◌++◌, take}
use free_net_hub.Prelude.Exec.{Exec, pure, raise, ◌>>=◌}
use free_net_hub.Prelude.Faults.{Env, attempt, query, poll}
use free_net_hub.Text.{Text, Tables, text, eq_text}
use free_net_hub.Selective.Pac.{PacError}

-- The values of `org.gnome.system.proxy mode`.
pub data Mode : Type 0 where
  off auto manual : Mode
  unknown : Text → Mode

-- `previous` of a policy: the settings to go back to.
pub record Saved : Type 0 where
  pub mode : Mode
  pub url : Text

-- A policy file of schema 1; a missing key is `none`, `false` or empty, as `get` reads it.
pub record Policy : Type 0 where
  pub enabled : Bool
  pub domains : List Text
  pub method : Text
  pub proxy_port : ℕ
  pub previous : Option Saved
  pub pac_url : Option Text

abbrev pub no_policy : Policy
no_policy = record {
  enabled = false;
  domains = [];
  method = [];
  proxy_port = 0;
  previous = none;
  pac_url = none;
}

pub data PolicyFile : Type 0 where
  absent corrupt : PolicyFile
  stored : Policy → PolicyFile

pub record World : Type 0 where
  pub policy : PolicyFile
  pub pac : Option Text
  pub unit : Option Text
  pub running : Bool
  pub mode : Mode
  pub url : Text
  -- the local variable `changed_proxy` of `apply`
  pub changed_proxy : Bool

pub data Fault : Type 0 where
  rejected : PacError → Fault
  method_invalid state_corrupt command_failed settings_drift proxy_foreign baseline_invalid : Fault
  proxy_unhealthy path_unsafe service_not_owned write_failed pac_server_not_ready : Fault
  apply_unverified rollback_unverified key_missing : Fault

-- What the module reads of the machine: Unicode, SHA-256 (the first 16 hexadecimal digits), and the
-- path of its own file, which goes into the unit.
pub record Host : Type 0 where
  pub tables : Tables
  pub digest : Text → Text
  pub helper : Text

abbrev pub M : Type 0 → Type 0
M A = Exec (Env World) Fault A

unfoldable pub base_url : Text
base_url = text "http://127.0.0.1:19416/route.pac"

-- `pac_url`
unfoldable pub pac_url : Host → Text → Text
unfolding base_url
pac_url h content = base_url ++ (text "?v=" ++ h.digest content)

-- `_setting("mode")`, `_setting("autoconfig-url")`
unfoldable pub get_mode : M Mode
get_mode = query (λ w. w.mode) command_failed

unfoldable pub get_url : M Text
get_url = query (λ w. w.url) command_failed

-- `_set_setting`
unfoldable pub set_mode : Mode → M Unit
set_mode m = attempt (λ w. record w { mode = m }) command_failed

unfoldable pub set_url : Text → M Unit
set_url u = attempt (λ w. record w { url = u }) command_failed

-- `_atomic`: the file is replaced or left alone.
unfoldable pub write_pac : Text → M Unit
write_pac content = attempt (λ w. record w { pac = some content }) write_failed

unfoldable pub remove_pac : M Unit
remove_pac = attempt (λ w. record w { pac = none }) write_failed

unfoldable pub write_unit : Text → M Unit
write_unit content = attempt (λ w. record w { unit = some content }) write_failed

unfoldable pub remove_unit : M Unit
remove_unit = attempt (λ w. record w { unit = none }) write_failed

-- `_write_policy`
unfoldable pub write_policy : Policy → M Unit
write_policy p = attempt (λ w. record w { policy = stored p }) write_failed

-- `_read_policy`: no file reads as an empty dictionary.
abbrev pub read_as : PolicyFile → M Policy
read_as absent = pure no_policy
read_as corrupt = raise state_corrupt
read_as (stored p) = pure p

unfoldable pub read_policy : M Policy
read_policy = do file ← query (λ w. w.policy) state_corrupt; read_as file

-- `_service_ctl`
unfoldable pub daemon_reload : M Unit
daemon_reload = attempt (λ w. w) command_failed

unfoldable pub enable_service : M Unit
enable_service = attempt (λ w. record w { running = true }) command_failed

unfoldable pub disable_service : M Unit
disable_service = attempt (λ w. record w { running = false }) command_failed

abbrev pub eq_mode : Mode → Mode → Bool
eq_mode off off = true
eq_mode auto auto = true
eq_mode manual manual = true
eq_mode (unknown a) (unknown b) = eq_text a b
eq_mode _ _ = false

-- `_PACHandler.do_GET` as `_pac_online` asks it: the server runs, the version in the address is that
-- of the file, and the first 32768 bytes of the answer are the text wanted.
abbrev pub served_as : Host → Text → Option Text → Bool
served_as h expected none = false
served_as h expected (some content) =
    eq_text (h.digest expected) (h.digest content) && eq_text (take 32768 content) expected

unfoldable pub served : Host → Text → World → Bool
unfolding eq_text
served h expected w = w.running && served_as h expected w.pac

-- `_pac_online`
unfoldable pub pac_online : Host → Text → M Bool
pac_online h expected = poll (served h expected)
