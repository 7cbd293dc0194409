-- ===== src/NodeHub/JsonNode.antt =====
-- `_singbox_json_node` of app/nodehub.py: one outbound of a sing-box configuration becomes a node.
pub mod Frame
pub mod Accepted
pub mod Secure
pub mod Caught
use free_net_hub.Prelude.{
  ℕ, Bool, true, false, not, ◌&&◌, ◌||◌, List, [], ◌∷◌, ◌++◌, take, is_nil, if◌then◌else◌, Result,
  ok, err, ◌>>=◌, ◌>>◌,
}
use free_net_hub.Text.{Text, Tables, text, eq_text, elem, strip, lower, upper}
use free_net_hub.Json.{
  ℤ, pos, Json, null, bool, int, str, arr, obj, Items, nil, Dict, end, field, Exc, value_error,
  Python, get, set, truthy, in_range,
}
use free_net_hub.NodeHub.Values.{refuse_if, or_error, text_or, int_or, is_obj}
use free_net_hub.NodeHub.JsonProtocols.{
  json_tls, json_tuic, json_anytls, json_shadowtls, json_hysteria, json_ssh,
}
use free_net_hub.NodeHub.JsonProxies.{json_snell, json_socks, json_http, json_naive}

pub json_types : List Text
json_types =
    text "tuic"
    ∷ text "anytls"
    ∷ text "shadowtls"
    ∷ text "hysteria"
    ∷ text "ssh"
    ∷ text "snell"
    ∷ text "socks"
    ∷ text "http"
    ∷ text "naive"
    ∷ []

-- The protocols that need TLS.
pub tls_types : List Text
tls_types = text "tuic" ∷ text "anytls" ∷ text "shadowtls" ∷ text "hysteria" ∷ text "naive" ∷ []

-- The keys of an outbound that would make the proxy go through another, or read a local file.
unfoldable pub forbidden : Python → Dict → Result Exc Unit
unfolding truthy
forbidden p o = do
  refuse_if (truthy p (get (text "detour") o) || truthy p (get (text "dialer_proxy") o))
      "NODE_JSON_DETOUR_UNSUPPORTED"
  refuse_if
      (truthy p (get (text "private_key_path") o)
        || (truthy p (get (text "certificate_path") o)
            || (truthy p (get (text "client_certificate_path") o)
                || truthy p (get (text "client_key_path") o))))
      "NODE_JSON_LOCAL_PATH_UNSUPPORTED"

-- `_id`: the digest of the node without what a person or a test adds to it.
unfoldable pub stable : Dict → Dict
unfolding elem
stable end = end
stable (field k v d) =
    let rest = stable d in
    if elem k (text "name" ∷ text "favorite" ∷ text "history" ∷ text "last_test" ∷ [])
    then rest
    else field k v rest

unfoldable pub node_id : Python → Dict → Text
unfolding stable
node_id p node = p.digest (stable node)

-- The entries that every new node gets.
unfoldable pub finish : Python → Text → Dict → Dict
finish p raw node = set (text "source") (str (text "import")) (
    set (text "note") (str []) (
      set (text "tags") (arr nil) (
        set (text "rating") (int (pos 0)) (
          set (text "pinned") (bool false) (
            set (text "favorite") (bool false)
              (set (text "raw") (str raw) (set (text "id") (str (node_id p node)) node)))))))

-- The node before the branches.
unfoldable pub base_node : Python → Dict → Text → Text → ℤ → Dict
base_node p o kind server port = field (text "protocol") (str kind) (
    field (text "name")
      (str (take 120 (text_or p (text "tag") o (upper p.tables kind ++ (b' ' ∷ server)))))
      (field (text "server") (str server)
        (field (text "port") (int port) (field (text "transport") null end))))

unfoldable pub add_tls : Python → Dict → Text → Text → Dict → Result Exc Dict
unfolding tls_types
add_tls p o kind server node =
    if elem kind tls_types || is_obj (get (text "tls") o)
    then (do tls ← json_tls p (get (text "tls") o) server; ok (set (text "tls") tls node))
    else ok node

-- The branch of the protocol.
unfoldable pub by_type : Python → Dict → Text → Dict → Result Exc Dict
unfolding eq_text
by_type p o kind node =
    if eq_text kind (text "tuic")
    then json_tuic p o node
    else if eq_text kind (text "anytls")
    then json_anytls p o node
    else if eq_text kind (text "shadowtls")
    then json_shadowtls p o node
    else if eq_text kind (text "hysteria")
    then json_hysteria p o node
    else if eq_text kind (text "ssh")
    then json_ssh p o node
    else if eq_text kind (text "snell")
    then json_snell p o node
    else if eq_text kind (text "socks")
    then json_socks p o node
    else if eq_text kind (text "http")
    then json_http p o node
    else if eq_text kind (text "naive")
    then json_naive p o node
    else ok node

-- `outbound.get("type")` in lower case, and the port that a missing one stands for.
abbrev pub type_of : Python → Dict → Text
type_of p o = lower p.tables (text_or p (text "type") o [])

abbrev pub default_port : Text → ℤ
default_port kind = pos (if eq_text kind (text "ssh") then 22 else 0)

-- From the server on.
unfoldable pub read_node : Python → Dict → Text → Result Exc Dict
read_node p o kind = do
  let server = strip (text_or p (text "server") o [])
  port ← or_error "NODE_PORT_INVALID" (int_or p (text "server_port") o (default_port kind))
  refuse_if (is_nil server || not (in_range 1 65535 port)) "NODE_HOST_PORT_REQUIRED"
  secured ← add_tls p o kind server (base_node p o kind server port)
  by_type p o kind secured

unfoldable pub singbox_json_node : Python → Json → Result Exc Dict
unfolding json_types
singbox_json_node p (obj o) = do
  refuse_if (not (elem (type_of p o) json_types)) "NODE_JSON_PROTOCOL_UNSUPPORTED"
  forbidden p o
  node ← read_node p o (type_of p o)
  ok (finish p (p.dumps (obj o)) node)
singbox_json_node p v = err (value_error (text "NODE_JSON_OUTBOUND_INVALID"))
