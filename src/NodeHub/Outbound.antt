-- ===== src/NodeHub/Outbound.antt =====
-- `_outbound` and `sing_box_config` of app/nodehub.py: a node becomes the configuration that the
-- proxy is started with.
pub mod Clean
pub mod Harmless
use free_net_hub.Prelude.{
  ℕ, Bool, true, false, not, ◌&&◌, ◌||◌, List, [], ◌∷◌, leb, is_nil, if◌then◌else◌, Result, ok, err,
  ◌>>=◌, ◌>>◌,
}
use free_net_hub.Text.{Text, text, eq_text}
use free_net_hub.Json.{
  ℤ, pos, Json, null, bool, int, str, arr, obj, Items, nil, cons, Dict, end, field, Exc,
  value_error, other_error, Python, get, get_or, has_key, set, truthy, to_str, to_int, or_else,
  in_range,
}
use free_net_hub.NodeHub.Values.{need, refuse_if, text_or, int_or, copy_given, copy_true, set_if}

-- `{"ss": "shadowsocks"}.get(proto, proto)`: the lookup hashes `proto`, which a list or a `dict`
-- refuses. What is no text equals none of the protocols.
abbrev pub protocol_text : Json → Result Exc Text
protocol_text (str s) = ok s
protocol_text (arr xs) = err other_error
protocol_text (obj d) = err other_error
protocol_text _ = ok []

unfoldable pub out_type : Text → Text
unfolding eq_text
out_type proto = if eq_text proto (text "ss") then text "shadowsocks" else proto

-- `base`
unfoldable pub out_base : Python → Text → Dict → Result Exc Dict
out_base p proto node = do
  server ← need (text "server") node
  port ← need (text "port") node
  n ← to_int p port
  ok (
      field (text "type") (str (out_type proto)) (
        field (text "tag") (str (text "provider"))
          (field (text "server") server (field (text "server_port") (int n) end))))

-- `base[k] = node[k]` for each key.
unfoldable pub copy_needed : List Text → Dict → Dict → Result Exc Dict
copy_needed [] node base = ok base
copy_needed (k ∷ keys) node base = do v ← need k node; copy_needed keys node (set k v base)

-- `base[k] = int(v)`
abbrev pub set_int : Python → Text → Json → Dict → Result Exc Dict
set_int p k v base = do n ← to_int p v; ok (set k (int n) base)

unfoldable pub out_vmess : Python → Dict → Dict → Result Exc Dict
out_vmess p node base = do
  known ← copy_needed (text "uuid" ∷ []) node base
  set_int p (text "alter_id") (get_or (int (pos 0)) (text "alter_id") node)
      (set (text "security") (get_or (str (text "auto")) (text "security") node) known)

unfoldable pub out_vless : Python → Dict → Dict → Result Exc Dict
out_vless p node base = do
  known ← copy_needed (text "uuid" ∷ []) node base
  ok (copy_true p (text "flow" ∷ text "packet_encoding" ∷ []) node known)

unfoldable pub out_hysteria2 : Python → Dict → Dict → Result Exc Dict
out_hysteria2 p node base = do
  known ← copy_needed (text "password" ∷ []) node base
  ok (copy_true p (text "obfs" ∷ []) node known)

unfoldable pub out_tuic : Python → Dict → Dict → Result Exc Dict
out_tuic p node base = do
  known ← copy_needed (text "uuid" ∷ text "password" ∷ []) node base
  ok (
      set (text "zero_rtt_handshake")
        (bool (truthy p (get_or (bool false) (text "zero_rtt_handshake") node)))
        (set (text "udp_relay_mode") (get_or (str (text "native")) (text "udp_relay_mode") node) (
          set (text "congestion_control")
            (get_or (str (text "cubic")) (text "congestion_control") node) known)))

unfoldable pub out_anytls : Dict → Dict → Result Exc Dict
out_anytls node base = do
  known ← copy_needed (text "password" ∷ []) node base
  ok (
      copy_given
        (text "idle_session_check_interval"
          ∷ text "idle_session_timeout"
          ∷ text "client_metadata"
          ∷ text "min_idle_session"
          ∷ [])
        node known)

unfoldable pub out_shadowtls : Python → Dict → Dict → Result Exc Dict
out_shadowtls p node base = do
  known ← set_int p (text "version") (get_or (int (pos 1)) (text "version") node) base
  ok (copy_true p (text "password" ∷ []) node known)

unfoldable pub out_hysteria : Python → Dict → Dict → Result Exc Dict
out_hysteria p node base = do
  up ← need (text "up_mbps") node
  upped ← set_int p (text "up_mbps") up base
  down ← need (text "down_mbps") node
  rated ← set_int p (text "down_mbps") down upped
  ok (copy_given (text "auth_str" ∷ text "auth" ∷ text "obfs" ∷ text "network" ∷ []) node rated)

unfoldable pub out_ssh : Python → Dict → Dict → Result Exc Dict
out_ssh p node base = ok (
    copy_true p
      (text "host_key"
        ∷ text "host_key_algorithms"
        ∷ text "cipher"
        ∷ text "mac"
        ∷ text "kex_algorithm"
        ∷ [])
      node
      (copy_given
        (text "password"
          ∷ text "private_key"
          ∷ text "private_key_passphrase"
          ∷ text "client_version"
          ∷ [])
        node (set (text "user") (or_else p (get (text "user") node) (str (text "root"))) base)))

unfoldable pub out_snell : Python → Dict → Dict → Result Exc Dict
out_snell p node base = do
  version ← int_or p (text "version") node (pos 4)
  known ← copy_needed (text "psk" ∷ []) node (set (text "version") (int version) base)
  ok (
      set_if (truthy p (get (text "reuse") node)) (text "reuse") (bool true) (
        copy_given
          (text "userkey" ∷ text "network" ∷ text "obfs_mode" ∷ text "obfs_host" ∷ text "mode" ∷ [])
          node known))

unfoldable pub out_socks : Python → Dict → Dict → Result Exc Dict
out_socks p node base = ok (
    copy_given (text "username" ∷ text "password" ∷ text "network" ∷ text "udp_over_tcp" ∷ []) node
      (set (text "version") (str (text_or p (text "version") node (text "5"))) base))

unfoldable pub out_http : Dict → Dict → Result Exc Dict
out_http node base =
    ok
      (copy_given (text "username" ∷ text "password" ∷ text "path" ∷ text "headers" ∷ []) node base)

unfoldable pub out_naive : Dict → Dict → Result Exc Dict
out_naive node base = ok (
    copy_given
      (text "username"
        ∷ text "password"
        ∷ text "insecure_concurrency"
        ∷ text "quic"
        ∷ text "quic_congestion_control"
        ∷ [])
      node base)

-- The branches.
unfoldable pub out_fields : Python → Text → Dict → Dict → Result Exc Dict
unfolding eq_text
out_fields p proto node base =
    if eq_text proto (text "ss")
    then copy_needed (text "method" ∷ text "password" ∷ []) node base
    else if eq_text proto (text "vmess")
    then out_vmess p node base
    else if eq_text proto (text "vless")
    then out_vless p node base
    else if eq_text proto (text "trojan")
    then copy_needed (text "password" ∷ []) node base
    else if eq_text proto (text "hysteria2")
    then out_hysteria2 p node base
    else if eq_text proto (text "tuic")
    then out_tuic p node base
    else if eq_text proto (text "anytls")
    then out_anytls node base
    else if eq_text proto (text "shadowtls")
    then out_shadowtls p node base
    else if eq_text proto (text "hysteria")
    then out_hysteria p node base
    else if eq_text proto (text "ssh")
    then out_ssh p node base
    else if eq_text proto (text "snell")
    then out_snell p node base
    else if eq_text proto (text "socks")
    then out_socks p node base
    else if eq_text proto (text "http")
    then out_http node base
    else if eq_text proto (text "naive")
    then out_naive node base
    else err (value_error (text "NODE_PROTOCOL_UNSUPPORTED"))

-- `_outbound`
unfoldable pub outbound : Python → Dict → Result Exc Dict
outbound p node = do
  protocol ← need (text "protocol") node
  proto ← protocol_text protocol
  base ← out_base p proto node
  fields ← out_fields p proto node base
  ok (copy_true p (text "tls" ∷ text "transport" ∷ []) node fields)

abbrev pub one : Json → Json
one v = arr (cons v nil)

-- `sing_box_config`
unfoldable pub sing_box_config : Python → Dict → Json → Result Exc Json
sing_box_config p node listen_port = do
  port ← to_int p listen_port
  refuse_if (not (in_range 1024 65535 port)) "NODE_LISTEN_PORT_INVALID"
  provider ← outbound p node
  ok (
      obj (
        field (text "log")
          (obj
            (field (text "level") (str (text "warn")) (field (text "timestamp") (bool true) end)))
          (field (text "inbounds")
            (one (
              obj (
                field (text "type") (str (text "socks")) (
                  field (text "tag") (str (text "node-in")) (
                    field (text "listen") (str (text "127.0.0.1"))
                      (field (text "listen_port") (int port) end))))))
            (field (text "outbounds")
              (arr (
                cons (obj provider) (
                  cons
                    (obj (
                      field (text "type") (str (text "direct"))
                        (field (text "tag") (str (text "direct")) end)))
                    nil)))
              (field (text "route")
                (obj (
                  field (text "final") (str (text "provider"))
                    (field (text "auto_detect_interface") (bool true) end)))
                end)))))
