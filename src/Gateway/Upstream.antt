-- ===== src/Gateway/Upstream.antt =====
-- `_connect_owned_upstream` of crossplatform/linux/tailnet_cfon_gateway.py, on the socket that
-- `create_connection` has opened.
pub mod Answers
pub mod Closes
use free_net_hub.Prelude.{
  ℕ, ◌/◌, ◌%◌, true, not, ◌||◌, [], ◌∷◌, ◌++◌, ◌==◌, ltb, length, take, drop, if◌then◌else◌,
}
use free_net_hub.Prelude.Exec.{pure, raise, raise_when, modify, except, ◌>>=◌, ◌>>◌}
use free_net_hub.Text.{Text, eq_text}
use free_net_hub.Gateway.Socket.{
  value_error, overflow_error, upstream_auth_failed, upstream_unavailable, bad_upstream_reply, S,
  sendall, exact,
}
use free_net_hub.Gateway.Request.{first}

-- `port.to_bytes(2, "big")` of a port that has two bytes
abbrev pub to_bytes : ℕ → Text
to_bytes port = port / 256 ∷ port % 256 ∷ []

-- `b"\x05\x01\x00\x03" + bytes([len(rawhost)]) + rawhost + port.to_bytes(2, "big")`
unfoldable pub request_bytes : Text → ℕ → S Text
request_bytes host port = do
  raise_when (ltb 255 (length host)) value_error
  raise_when (ltb 65535 port) overflow_error
  pure (5 ∷ 1 ∷ 0 ∷ 3 ∷ length host ∷ (host ++ to_bytes port))

-- The address of the reply, by its type.
unfoldable pub skip_address : ℕ → S Text
skip_address kind =
    if kind == 1
    then exact 4
    else if kind == 4
    then exact 16
    else if kind == 3
    then (do count ← exact 1; exact (first count))
    else raise bad_upstream_reply

-- The body of the `try`.
unfoldable pub handshake : Text → ℕ → S Unit
handshake host port = do
  sendall (5 ∷ 1 ∷ 0 ∷ [])
  chosen ← exact 2
  raise_when (not (eq_text chosen (5 ∷ 0 ∷ []))) upstream_auth_failed
  request ← request_bytes host port
  sendall request
  header ← exact 4
  raise_when
      (not (eq_text (take 1 header) (5 ∷ []))
        || not (eq_text (take 2 (drop 1 header)) (0 ∷ 0 ∷ [])))
      upstream_unavailable
  skip_address (first (drop 3 header))
  exact 2
  pure tt

unfoldable pub connect_upstream : Text → ℕ → S Unit
connect_upstream host port =
    except (handshake host port) (λ e. do modify (λ c. record c { closed = true }); raise e)
