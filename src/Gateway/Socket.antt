-- ===== src/Gateway/Socket.antt =====
-- A connected socket as `_exact` and `sendall` of crossplatform/linux/tailnet_cfon_gateway.py use it.
pub mod Exact
use free_net_hub.Prelude.{
  ℕ, zero, suc, ◌-◌, Bool, true, false, List, [], ◌∷◌, ◌++◌, leb, ◌==◌, length, take, drop, is_nil,
  if◌then◌else◌, ok, err,
}
use free_net_hub.Prelude.Exec.{Exec, pure, raise, ◌>>=◌}
use free_net_hub.Text.{Text}

-- The `TailnetError`s by their texts, the `OSError` of a socket, and what `bytes` and `to_bytes` raise.
pub data GatewayError : Type 0 where
  os_error truncated socks_version method_count_invalid noauth_required : GatewayError
  only_connect_remote_dns host_length https_only host_not_dns host_invalid target_not_allowed :
      GatewayError
  upstream_auth_failed upstream_unavailable bad_upstream_reply : GatewayError
  self_peer_conflict not_running bind_not_owned peer_not_online private_ipv4_required : GatewayError
  value_error overflow_error out_of_fuel : GatewayError

-- The bytes to come in the segments in which the network delivers them; behind the last, the other
-- side has closed, or the connection has failed.
pub record Conn : Type 0 where
  pub incoming : List Text
  pub broken : Bool
  pub sent : Text
  pub writable : Bool
  pub closed : Bool

abbrev pub S : Type 0 → Type 0
S A = Exec Conn GatewayError A

abbrev pub recv_at : ℕ → List Text → S Text
recv_at size [] c = if c.broken then (err os_error, c) else (ok [], c)
recv_at size (segment ∷ rest) c =
    if leb (length segment) size
    then (ok segment, record c { incoming = rest })
    else (ok (take size segment), record c { incoming = drop size segment ∷ rest })

-- `sock.recv(size)`: at most `size` bytes of the next segment, and none after the end.
unfoldable pub recv : ℕ → S Text
recv size c = recv_at size c.incoming c

-- `sock.sendall(data)`
unfoldable pub sendall : Text → S Unit
sendall data_ c =
    if c.writable then (ok tt, record c { sent = c.sent ++ data_ }) else (err os_error, c)

-- The loop of `_exact`.
unfoldable pub exact_loop : ℕ → ℕ → Text → S Text
exact_loop zero size found = if length found == size then pure found else raise out_of_fuel
exact_loop (suc fuel) size found = if length found == size then pure found else do
  segment ← recv (size - length found)
  if is_nil segment then raise truncated else exact_loop fuel size (found ++ segment)

-- `_exact`: each pass finds a byte or raises, so `size` passes are enough.
unfoldable pub exact : ℕ → S Text
exact size = exact_loop size size []
