-- ===== src/NodeHub/JsonProtocols.antt =====
-- The branches of `_singbox_json_node` of app/nodehub.py, one for each protocol: what they take from
-- an outbound and put into its node.
use free_net_hub.Prelude.{
  Bool, true, not, ◌&&◌, ◌||◌, List, [], ◌∷◌, take, is_nil, if◌then◌else◌, Result, ok, err, ◌>>=◌,
  ◌>>◌,
}
use free_net_hub.Text.{Text, text, elem, strip, lower}
use free_net_hub.Json.{
  pos, Json, null, bool, int, str, arr, obj, nil, cons, Dict, end, field, Exc, value_error, Python,
  get, set, truthy, to_str, to_int, is_true, is_false, is_given, in_range, clamp,
}
use free_net_hub.NodeHub.Values.{
  refuse_if, or_error, text_or, int_or, copy_texts, nonblank, take_items, set_if,
}

-- `alpn = value.get("alpn")` and what follows from it.
abbrev pub add_alpn : Python → Json → Dict → Dict
add_alpn p (arr xs) out =
    let clean = take_items 8 (nonblank p (λ s. s) xs) in
    elim clean [ nil ↦ out | cons y ys ↦ set (text "alpn") (arr (cons y ys)) out ]
add_alpn p _ out = out

abbrev pub add_utls : Python → Json → Dict → Dict
add_utls p (obj u) out =
    let fp = strip (text_or p (text "fingerprint") u []) in
    set_if (is_true (get (text "enabled") u) && not (is_nil fp)) (text "utls")
      (obj (field (text "enabled") (bool true) (field (text "fingerprint") (str (take 64 fp)) end)))
      out
add_utls p _ out = out

-- `_json_tls`
unfoldable pub json_tls : Python → Json → Text → Result Exc Json
json_tls p (obj value) server = do
  refuse_if (is_false (get (text "enabled") value)) "NODE_JSON_TLS_REQUIRED"
  let out =
      field (text "enabled") (bool true)
        (field (text "server_name") (str (text_or p (text "server_name") value server)) end)
  let insecure = set_if (is_true (get (text "insecure") value)) (text "insecure") (bool true) out
  ok (obj (add_utls p (get (text "utls") value) (add_alpn p (get (text "alpn") value) insecure)))
json_tls p value server = err (value_error (text "NODE_JSON_TLS_REQUIRED"))

pub congestion_controls : List Text
congestion_controls = text "cubic" ∷ text "new_reno" ∷ text "bbr" ∷ []

-- The fields of TUIC, which its links and its JSON share.
unfoldable pub tuic_fields : Text → Text → Text → Text → Bool → Dict → Result Exc Dict
unfolding congestion_controls
tuic_fields uid password cc relay zero_rtt node = do
  refuse_if (not (elem cc congestion_controls)) "TUIC_CONGESTION_CONTROL_INVALID"
  refuse_if (not (elem relay (text "native" ∷ text "quic" ∷ []))) "TUIC_UDP_RELAY_MODE_INVALID"
  ok (
      set (text "zero_rtt_handshake") (bool zero_rtt) (
        set (text "udp_relay_mode") (str relay) (
          set (text "congestion_control") (str cc)
            (set (text "password") (str password) (set (text "uuid") (str uid) node)))))

unfoldable pub json_tuic : Python → Dict → Dict → Result Exc Dict
json_tuic p o node = do
  let uid = strip (text_or p (text "uuid") o [])
  let password = strip (text_or p (text "password") o [])
  refuse_if (is_nil uid || is_nil password) "TUIC_CREDENTIALS_REQUIRED"
  tuic_fields uid password (lower p.tables (text_or p (text "congestion_control") o (text "cubic")))
      (lower p.tables (text_or p (text "udp_relay_mode") o (text "native")))
      (truthy p (get (text "zero_rtt_handshake") o)) node

-- `if outbound.get("min_idle_session") is not None: ...`
abbrev pub add_min_idle : Python → Json → Dict → Result Exc Dict
add_min_idle p null node = ok node
add_min_idle p v node = do
  n ← or_error "ANYTLS_MIN_IDLE_SESSION_INVALID" (to_int p v)
  ok (set (text "min_idle_session") (int (clamp 64 n)) node)

unfoldable pub json_anytls : Python → Dict → Dict → Result Exc Dict
json_anytls p o node = do
  let password = strip (text_or p (text "password") o [])
  refuse_if (is_nil password) "ANYTLS_PASSWORD_REQUIRED"
  add_min_idle p (get (text "min_idle_session") o) (
      copy_texts p 512
        (text "idle_session_check_interval"
          ∷ text "idle_session_timeout"
          ∷ text "client_metadata"
          ∷ [])
        o (set (text "password") (str password) node))

unfoldable pub json_shadowtls : Python → Dict → Dict → Result Exc Dict
json_shadowtls p o node = do
  version ← or_error "SHADOWTLS_VERSION_INVALID" (int_or p (text "version") o (pos 1))
  refuse_if (not (in_range 1 3 version)) "SHADOWTLS_VERSION_INVALID"
  let password = strip (text_or p (text "password") o [])
  refuse_if (in_range 2 3 version && is_nil password) "SHADOWTLS_PASSWORD_REQUIRED"
  ok (
      set_if (not (is_nil password)) (text "password") (str password)
        (set (text "version") (int version) node))

-- `network`, which three protocols check alike.
abbrev pub add_network : Text → Text → Dict → Result Exc Dict
add_network code network node =
    if is_nil network
    then ok node
    else if elem network (text "tcp" ∷ text "udp" ∷ [])
    then ok (set (text "network") (str network) node)
    else err (value_error code)

abbrev pub network_of : Python → Dict → Text
network_of p o = lower p.tables (text_or p (text "network") o [])

unfoldable pub json_hysteria : Python → Dict → Dict → Result Exc Dict
json_hysteria p o node = do
  up ← or_error "HYSTERIA_V1_BANDWIDTH_REQUIRED" (to_int p (get (text "up_mbps") o))
  down ← or_error "HYSTERIA_V1_BANDWIDTH_REQUIRED" (to_int p (get (text "down_mbps") o))
  refuse_if (not (in_range 1 100000 up) || not (in_range 1 100000 down))
      "HYSTERIA_V1_BANDWIDTH_INVALID"
  let rates = set (text "down_mbps") (int down) (set (text "up_mbps") (int up) node)
  let auth =
      if is_given (get (text "auth_str") o)
      then set (text "auth_str") (str (take 2048 (to_str p (get (text "auth_str") o)))) rates
      else copy_texts p 4096 (text "auth" ∷ []) o rates
  add_network (text "HYSTERIA_V1_NETWORK_INVALID") (network_of p o)
      (copy_texts p 2048 (text "obfs" ∷ []) o auth)

-- The loop over the lists of an SSH outbound.
unfoldable pub copy_lists : Python → List Text → Dict → Dict → Dict
copy_lists p [] o node = node
copy_lists p (k ∷ keys) o node = copy_lists p keys o (elim (get k o) [
  | arr xs ↦ set k (arr (nonblank p (take 1024) (take_items 32 xs))) node
  | v ↦ node
])

unfoldable pub json_ssh : Python → Dict → Dict → Result Exc Dict
json_ssh p o node = do
  refuse_if (truthy p (get (text "private_key_path") o)) "NODE_JSON_LOCAL_PATH_UNSUPPORTED"
  let user = set (text "user") (str (take 256 (text_or p (text "user") o (text "root")))) node
  let password = copy_texts p 2048 (text "password" ∷ []) o user
  let keyed = copy_texts p 32768 (text "private_key" ∷ []) o password
  let texts = copy_texts p 2048 (text "private_key_passphrase" ∷ text "client_version" ∷ []) o keyed
  let full =
      copy_lists p
        (text "host_key"
          ∷ text "host_key_algorithms"
          ∷ text "cipher"
          ∷ text "mac"
          ∷ text "kex_algorithm"
          ∷ [])
        o texts
  refuse_if
      (not (truthy p (get (text "password") full))
        && not (truthy p (get (text "private_key") full)))
      "SSH_CREDENTIAL_REQUIRED"
  ok full
