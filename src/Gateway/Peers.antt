-- ===== src/Gateway/Peers.antt =====
-- `verify_peers` of crossplatform/linux/tailnet_cfon_gateway.py over the answer of
-- `tailscale status --json`.
pub mod Links
use free_net_hub.Prelude.{
  Bool, false, not, ◌&&◌, ◌||◌, Option, none, some, List, any, Result, ok, err, ◌>>=◌, ◌>>◌,
  raise_if,
}
use free_net_hub.Text.{Text, text, eq_text, elem}
use free_net_hub.Hosts.Address.{IpAddress, is_outside}
use free_net_hub.Gateway.Socket.{
  GatewayError, self_peer_conflict, not_running, bind_not_owned, peer_not_online,
  private_ipv4_required,
}

-- A device of the tailnet; `online` is `none` when the key is missing.
pub record Node : Type 0 where
  pub ips : List Text
  pub online : Option Bool

pub record Tailnet : Type 0 where
  pub backend_state : Text
  pub self : Node
  pub peers : List Node

-- `x is False`, `x is True`
abbrev pub is_false : Option Bool → Bool
is_false none = false
is_false (some b) = not b

abbrev pub is_true : Option Bool → Bool
is_true none = false
is_true (some b) = b

abbrev pub or_refuse : Option IpAddress → Result GatewayError IpAddress
or_refuse none = err private_ipv4_required
or_refuse (some a) = ok a

-- `tailnet_ip` over `ipaddress.ip_address`
unfoldable pub tailnet_ip : (Text → Option IpAddress) → Text → Result GatewayError Text
tailnet_ip ip_address ip = do
  a ← or_refuse (ip_address ip)
  raise_if (is_outside a) private_ipv4_required
  ok a.canonical

unfoldable pub online_at : Text → Node → Bool
unfolding elem
online_at peer p = elem peer p.ips && is_true p.online

-- The guards of `verify_peers` on canonical addresses.
unfoldable pub check_peers : Text → Text → Tailnet → Result GatewayError (Text × Text)
unfolding eq_text elem online_at
check_peers bind peer status = do
  raise_if (eq_text bind peer) self_peer_conflict
  raise_if (not (eq_text status.backend_state (text "Running"))) not_running
  raise_if (not (elem bind status.self.ips) || is_false status.self.online) bind_not_owned
  raise_if (not (any (online_at peer) status.peers)) peer_not_online
  ok (bind, peer)

unfoldable pub verify_peers :
    (Text → Option IpAddress) → Text → Text → Tailnet → Result GatewayError (Text × Text)
verify_peers ip_address bind peer status = do
  bind ← tailnet_ip ip_address bind
  peer ← tailnet_ip ip_address peer
  check_peers bind peer status
