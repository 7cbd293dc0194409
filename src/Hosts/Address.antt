-- ===== src/Hosts/Address.antt =====
-- The addresses of the tailnet, as app/selective_http_bridge.py (TAILNET_RANGE) and
-- crossplatform/linux/tailnet_cfon_gateway.py (TAILNET) tell them; `ipaddress.ip_address` is a
-- parameter of what uses it.
use free_net_hub.Prelude.{
  ℕ, ◌+◌, ◌*◌, ◌≤◌, ◌<◌, ◌≡◌, Bool, ◌&&◌, ◌||◌, not, false, Option, some, arith, leb, ◌==◌,
}
use free_net_hub.Text.{Text}

-- What `ipaddress.ip_address` makes of a text that it accepts: `ip.version`, `int(ip)`, `str(ip)`.
pub record IpAddress : Type 0 where
  pub version : ℕ
  pub value : ℕ
  pub canonical : Text

-- `ip in ipaddress.ip_network("100.64.0.0/10")`, from 100.64.0.0 to 100.127.255.255
unfoldable pub in_tailnet : IpAddress → Bool
in_tailnet ip = ip.version == 4 && (leb 1681915904 ip.value && leb ip.value 1686110207)

-- `ip.version != 4 or ip not in TAILNET`
unfoldable pub is_outside : IpAddress → Bool
unfolding in_tailnet
is_outside ip = not (ip.version == 4) || not (in_tailnet ip)

-- The text is accepted as an IPv4 address from 100.64.0.0 to 100.127.255.255, of which `printed` is
-- the canonical form.
pub record IsTailnet (ip_address : Text → Option IpAddress) (given printed : Text) : Type 0 where
  pub ip : IpAddress
  pub accepted : ip_address given ≡ some ip
  pub version : ip.version ≡ 4
  pub lowest : (100 * 256 + 64) * 65536 ≤ ip.value
  pub highest : ip.value < (100 * 256 + 128) * 65536
  pub canonical : ip.canonical ≡ printed

pub is_outside-IsTailnet :
    (ip_address : Text → Option IpAddress) (given : Text) (ip : IpAddress) {printed : Text}
    → ip_address given ≡ some ip
    → is_outside ip ≡ false
    → ip.canonical ≡ printed
    → IsTailnet ip_address given printed
unfolding is_outside
is_outside-IsTailnet ip_address given ip e h same = record {
  ip = ip;
  accepted = e;
  version = ground arith;
  lowest = ground arith;
  highest = ground arith;
  canonical = same;
}
