-- ===== src/NodeHub/Links/Schemes.antt =====
-- The branches of `parse_uri` of app/nodehub.py whose links are taken apart by `urlsplit`.
use free_net_hub.Prelude.{
  ℕ, Bool, true, not, ◌&&◌, ◌||◌, Option, [], ◌∷◌, ◌++◌, take, leb, ◌==◌, is_nil, if◌then◌else◌,
  Result, ok, ◌>>=◌, ◌>>◌,
}
use free_net_hub.Text.{Text, text, eq_text, elem, strip, lower, upper}
use free_net_hub.Json.{
  pos, Json, null, bool, int, str, arr, obj, nil, cons, Dict, end, field, Exc, set, to_int,
  in_range,
}
use free_net_hub.NodeHub.Values.{refuse_if, or_error, set_if}
use free_net_hub.NodeHub.JsonProtocols.{tuic_fields}
use free_net_hub.NodeHub.Links.{
  Web, Url, Query, query_of, value, first_of, name_of, host_port, or_nil, or_zero, says_yes,
  says_true,
}
use free_net_hub.NodeHub.Links.Transport.{transport}
use free_net_hub.NodeHub.Links.Security.{tls, required_tls}

-- The entries that every node begins with.
unfoldable pub head : Text → Text → Text → ℕ → Dict → Dict
head protocol name server port rest = field (text "protocol") (str protocol) (
    field (text "name") (str name)
      (field (text "server") (str server) (field (text "port") (int (pos port)) rest)))

-- `"tls": t, "transport": v` at the end of a node.
abbrev pub set_tls : Json → Json → Dict → Dict
set_tls t v node = set (text "transport") v (set (text "tls") t node)

abbrev pub user_of : Web → Url → Text
user_of w parts = strip (w.unquote (or_nil parts.username))

-- The name of a node whose link may bring one.
abbrev pub titled : Web → Url → Text → Text → Text
titled w parts title server = name_of w parts.fragment (title ++ (b' ' ∷ server))

unfoldable pub uri_tuic : Web → Text → Result Exc Dict
unfolding first_of
uri_tuic w raw = do
  parts ← w.urlsplit raw
  at ← host_port parts
  let q = query_of w parts
  let password = strip (w.unquote (or_nil parts.password))
  refuse_if (is_nil (user_of w parts) || is_nil password) "TUIC_CREDENTIALS_REQUIRED"
  node ←
      tuic_fields (user_of w parts) password
        (lower w.python.tables (first_of (text "congestion_control" ∷ []) (text "cubic") q))
        (lower w.python.tables (first_of (text "udp_relay_mode" ∷ []) (text "native") q))
        (says_yes w (first_of (text "reduce_rtt" ∷ text "zero_rtt_handshake" ∷ []) [] q))
        (head (text "tuic") (titled w parts (text "TUIC") at.0) at.0 at.1 end)
  t ← required_tls w q at.0
  ok (set_tls t null node)

-- `parts.port or 443`
abbrev pub port_or : ℕ → Option ℕ → ℕ
port_or default port = if or_zero port == 0 then default else or_zero port

unfoldable pub uri_anytls : Web → Text → Result Exc Dict
uri_anytls w raw = do
  parts ← w.urlsplit raw
  let server = or_nil parts.hostname
  refuse_if (is_nil server) "NODE_HOST_PORT_REQUIRED"
  given ← or_error "NODE_PORT_INVALID" parts.port
  let port = port_or 443 given
  refuse_if (not (leb 1 port && leb port 65535)) "NODE_PORT_INVALID"
  refuse_if (is_nil (user_of w parts)) "ANYTLS_PASSWORD_REQUIRED"
  t ← required_tls w (query_of w parts) server
  ok (
      set_tls t null (
        head (text "anytls") (titled w parts (text "AnyTLS") server) server port
          (field (text "password") (str (user_of w parts)) end)))

-- The TLS of the two versions of Hysteria.
unfoldable pub plain_tls : Text → Bool → Dict
plain_tls name insecure =
    set_if insecure (text "insecure") (bool true)
      (field (text "enabled") (bool true) (field (text "server_name") (str name) end))

-- `if auth: node["auth_str"] = auth[:2048]`, and the obfuscation behind it.
unfoldable pub hysteria_end : Web → Query → Dict → Result Exc Dict
unfolding value first_of eq_text
hysteria_end w q node =
    let auth = strip (value (text "auth") q) in
    let known = set_if (not (is_nil auth)) (text "auth_str") (str (take 2048 auth)) node in
    let mode = lower w.python.tables (strip (value (text "obfs") q)) in
    let password = strip (first_of (text "obfsParam" ∷ text "obfsparam" ∷ []) [] q) in
    if is_nil mode then ok known else do
      refuse_if (not (eq_text mode (text "xplus")) || is_nil password)
          "HYSTERIA_V1_OBFS_UNSUPPORTED"
      ok (set (text "obfs") (str (take 2048 password)) known)

unfoldable pub uri_hysteria : Web → Text → Result Exc Dict
unfolding first_of value eq_text to_int
uri_hysteria w raw = do
  parts ← w.urlsplit raw
  at ← host_port parts
  let q = query_of w parts
  refuse_if
      (not (
        eq_text (lower w.python.tables (first_of (text "protocol" ∷ []) (text "udp") q))
          (text "udp")))
      "HYSTERIA_V1_PROTOCOL_UNSUPPORTED"
  up ←
      or_error "HYSTERIA_V1_BANDWIDTH_REQUIRED"
        (to_int w.python (str (first_of (text "upmbps" ∷ text "up_mbps" ∷ []) [] q)))
  down ←
      or_error "HYSTERIA_V1_BANDWIDTH_REQUIRED"
        (to_int w.python (str (first_of (text "downmbps" ∷ text "down_mbps" ∷ []) [] q)))
  refuse_if (not (in_range 1 100000 up) || not (in_range 1 100000 down))
      "HYSTERIA_V1_BANDWIDTH_INVALID"
  let alpn = strip (value (text "alpn") q)
  let t = set_if (not (is_nil alpn)) (text "alpn") (arr (cons (str (take 64 alpn)) nil)) (
      plain_tls (first_of (text "peer" ∷ text "sni" ∷ []) at.0 q)
        (says_yes w (value (text "insecure") q)))
  hysteria_end w q (
      set_tls (obj t) null (
        head (text "hysteria") (titled w parts (text "Hysteria") at.0) at.0 at.1
          (field (text "up_mbps") (int up) (field (text "down_mbps") (int down) end))))

-- The obfuscation of version 2.
unfoldable pub hysteria2_end : Web → Query → Dict → Result Exc Dict
unfolding value first_of elem
hysteria2_end w q node =
    let obfs = lower w.python.tables (strip (value (text "obfs") q)) in
    let password = strip (first_of (text "obfs-password" ∷ text "obfs_password" ∷ []) [] q) in
    if is_nil obfs then ok node else do
      refuse_if (not (elem obfs (text "salamander" ∷ text "gecko" ∷ [])))
          "HYSTERIA2_OBFS_UNSUPPORTED"
      refuse_if (is_nil password) "HYSTERIA2_OBFS_PASSWORD_REQUIRED"
      ok (
          set (text "obfs")
            (obj (field (text "type") (str obfs) (field (text "password") (str password) end)))
            node)

unfoldable pub hysteria2_fields : Web → Url → Query → Text → ℕ → Result Exc Dict
unfolding first_of
hysteria2_fields w parts q server port = hysteria2_end w q (
    set_tls
      (obj (
        plain_tls (first_of (text "sni" ∷ []) server q)
          (says_true w (first_of (text "insecure" ∷ text "allowInsecure" ∷ []) [] q))))
      null
      (head (text "hysteria2") (titled w parts (text "Hysteria2") server) server port
        (field (text "password") (str (user_of w parts)) end)))

-- The user of VLESS with what follows it, or the password of Trojan.
unfoldable pub add_user : Text → Query → Text → Dict → Dict
unfolding eq_text value first_of
add_user scheme q user node =
    let flow = value (text "flow") q in
    let packets = first_of (text "packetEncoding" ∷ text "packet_encoding" ∷ []) [] q in
    if eq_text scheme (text "vless")
    then set_if (not (is_nil packets)) (text "packet_encoding") (str packets)
        (set_if (not (is_nil flow)) (text "flow") (str flow) (set (text "uuid") (str user) node))
    else set (text "password") (str user) node

unfoldable pub stream_fields : Web → Url → Query → Text → Text → ℕ → Result Exc Dict
unfolding eq_text
stream_fields w parts q scheme server port = do
  t ← tls w q server (eq_text scheme (text "trojan"))
  v ← transport w q
  ok (
      add_user scheme q (user_of w parts) (
        set_tls t v
          (head scheme (titled w parts (upper w.python.tables scheme) server) server port end)))

-- Hysteria 2, VLESS and Trojan.
unfoldable pub uri_stream : Web → Text → Text → Result Exc Dict
unfolding eq_text
uri_stream w raw scheme = do
  parts ← w.urlsplit raw
  at ← host_port parts
  refuse_if (is_nil (user_of w parts)) "NODE_CREDENTIAL_REQUIRED"
  (if eq_text scheme (text "hysteria2")
      then hysteria2_fields w parts (query_of w parts) at.0 at.1
      else stream_fields w parts (query_of w parts) scheme at.0 at.1)
