-- ===== src/Selective/Disable.antt =====
-- `disable` of crossplatform/linux/selective_tunnel.py.
pub mod Outcomes
pub mod RoundTrip
use free_net_hub.Prelude.{
  Bool, true, false, not, ◌&&◌, ◌||◌, Option, none, some, leb, length, if◌then◌else◌, Result, ok,
  err,
}
use free_net_hub.Prelude.Exec.{Exec, pure, raise, raise_when, ◌>>=◌, ◌>>◌, except}
use free_net_hub.Text.{Text, eq_text}
use free_net_hub.Selective.World.{
  Mode, auto, Saved, Policy, Fault, rollback_unverified, M, get_mode, get_url, set_mode, set_url,
  write_policy, read_policy, disable_service, eq_mode,
}
use free_net_hub.Selective.Arguments.{known_mode}

-- The dictionary that `disable` returns; `partial` also names the exception.
pub data Disabled : Type 0 where
  already_disabled settings_drift rollback_state_invalid disabled disable_partial : Disabled

abbrev pub eq_stored : Text → Option Text → Bool
eq_stored url none = false
eq_stored url (some u) = eq_text url u

-- The policy with nothing to go back to.
unfoldable pub switched_off : Policy → Policy
switched_off p = record p { enabled = false; previous = none }

-- The body of the `try`.
unfoldable pub restore : Policy → Saved → M Disabled
restore p s = do
  set_url s.url
  set_mode s.mode
  mode ← get_mode
  raise_when (not (eq_mode mode s.mode)) rollback_unverified
  url ← get_url
  raise_when (not (eq_text url s.url)) rollback_unverified
  write_policy (switched_off p)
  disable_service
  pure disabled

-- `old = data.get("previous") or {}` and the checks on its `mode` and `url`.
unfoldable pub restore_from : Policy → Option Saved → M Disabled
restore_from p none = pure rollback_state_invalid
restore_from p (some s) =
    if known_mode s.mode && leb (length s.url) 4096
    then except (restore p s) (λ e. pure disable_partial)
    else pure rollback_state_invalid

unfoldable pub disable_url : Policy → M Disabled
disable_url p = do
  url ← get_url
  if eq_stored url p.pac_url then restore_from p p.previous else pure settings_drift

-- The test that the settings are still ours; the second is read only if the first is.
unfoldable pub disable_bound : Policy → M Disabled
disable_bound p = do
  mode ← get_mode
  if not (eq_mode mode auto) then pure settings_drift else disable_url p

unfoldable pub disable : M Disabled
disable = do p ← read_policy; if p.enabled then disable_bound p else pure already_disabled
