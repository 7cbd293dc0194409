-- ===== src/Selective/Status.antt =====
-- `status` of crossplatform/linux/selective_tunnel.py.
pub mod Reads
use free_net_hub.Prelude.{is_nil, Bool, false, ◌&&◌, not, Option, none, some, List, if◌then◌else◌}
use free_net_hub.Prelude.Exec.{pure, ◌>>=◌, except}
use free_net_hub.Prelude.Faults.{query}
use free_net_hub.Text.{Text, eq_text}
use free_net_hub.Selective.World.{
  Mode, auto, Policy, write_failed, Host, M, base_url, get_mode, get_url, read_policy, eq_mode,
  pac_online,
}

pub data StatusError : Type 0 where
  clear proxy_unavailable settings_drift pac_unavailable proxy_foreign : StatusError

pub record Status : Type 0 where
  pub is_ok : Bool
  pub enabled : Bool
  pub bound : Bool
  pub healthy : Bool
  pub domains : List Text
  pub error : StatusError

-- `str(data.get("pacUrl") or URL)`
unfoldable pub owned_url : Policy → Text
unfolding base_url
owned_url p = elim p.pac_url [ none ↦ base_url | some u ↦ if is_nil u then base_url else u ]

-- The first line of `status` that raises is caught: the settings cannot be read.
abbrev pub unavailable : Policy → Status
unavailable p = record {
  is_ok = false;
  enabled = p.enabled;
  bound = false;
  healthy = false;
  domains = p.domains;
  error = proxy_unavailable;
}

-- `PAC_FILE.is_file() and _pac_online(PAC_FILE.read_text())`
unfoldable pub content_online : Host → Option Text → M Bool
content_online h none = pure false
content_online h (some content) = pac_online h content

unfoldable pub file_online : Host → M Bool
file_online h = do file ← query (λ w. w.pac) write_failed; content_online h file

unfoldable pub report : Policy → Bool → Bool → Status
report p bound healthy = record {
  is_ok = if p.enabled then healthy else not bound;
  enabled = p.enabled;
  bound = bound;
  healthy = healthy;
  domains = p.domains;
  error =
      if p.enabled && not bound
      then settings_drift
      else if p.enabled && not healthy
      then pac_unavailable
      else if bound && not p.enabled
      then proxy_foreign
      else clear;
}

unfoldable pub bound_to : Policy → Mode → Text → Bool
unfolding owned_url eq_text
bound_to p mode url = eq_mode mode auto && eq_text url (owned_url p)

unfoldable pub health : Host → Policy → Bool → M Status
health h p bound = do
  healthy ← if p.enabled && bound then file_online h else pure false
  pure (report p bound healthy)

-- The two settings, or `none` where the `except Exception` of `status` is reached.
unfoldable pub read_settings : M (Option (Mode × Text))
read_settings = except (do mode ← get_mode; url ← get_url; pure (some (mode, url))) (λ e. pure none)

unfoldable pub report_on : Host → Policy → Option (Mode × Text) → M Status
report_on h p none = pure (unavailable p)
report_on h p (some (mode, url)) = health h p (bound_to p mode url)

unfoldable pub status : Host → M Status
status h = do p ← read_policy; settings ← read_settings; report_on h p settings
