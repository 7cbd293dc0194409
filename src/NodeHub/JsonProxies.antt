-- ===== src/NodeHub/JsonProxies.antt =====
-- The branches of `_singbox_json_node` of app/nodehub.py for the proxies: Snell, SOCKS, HTTP, Naive.
use free_net_hub.Prelude.{
  ℕ, zero, suc, Bool, false, not, ◌&&◌, ◌||◌, [], ◌∷◌, take, is_nil, leb, ◌==◌, if◌then◌else◌,
  Result, ok, ◌>>=◌, ◌>>◌,
}
use free_net_hub.Text.{Text, text, elem, lower}
use free_net_hub.Text.Utf8.{utf8_length}
use free_net_hub.Json.{
  ℤ, pos, negsuc, Json, bool, int, str, obj, Dict, end, field, Exc, Python, get, set, truthy,
  to_str, clamp,
}
use free_net_hub.NodeHub.Values.{refuse_if, or_error, text_or, int_or, copy_texts}
use free_net_hub.NodeHub.JsonProtocols.{add_network, network_of}

-- `version in (4, 6)`
abbrev pub is_int : ℕ → ℤ → Bool
is_int n (pos m) = m == n
is_int n (negsuc m) = false

-- `not psk or (version == 6 and not 12 <= len(psk.encode("utf-8")) <= 255)`
abbrev pub bad_psk : ℤ → Text → Bool
bad_psk version psk =
    is_nil psk || (is_int 6 version && not (leb 12 (utf8_length psk) && leb (utf8_length psk) 255))

-- The obfuscation of version 4, and the mode of version 6.
unfoldable pub snell_mode : Python → ℤ → Dict → Dict → Result Exc Dict
snell_mode p version o node =
    if is_int 4 version
    then (do
      let obfs = lower p.tables (text_or p (text "obfs_mode") o (text "none"))
      refuse_if (not (elem obfs (text "none" ∷ text "http" ∷ []))) "SNELL_OBFS_INVALID"
      ok (copy_texts p 512 (text "obfs_host" ∷ []) o (set (text "obfs_mode") (str obfs) node)))
    else do
      let mode = lower p.tables (text_or p (text "mode") o (text "default"))
      refuse_if (not (elem mode (text "default" ∷ text "unshaped" ∷ text "unsafe-raw" ∷ [])))
          "SNELL_MODE_INVALID"
      ok (set (text "mode") (str mode) node)

unfoldable pub json_snell : Python → Dict → Dict → Result Exc Dict
json_snell p o node = do
  version ← or_error "SNELL_VERSION_INVALID" (int_or p (text "version") o (pos 4))
  refuse_if (not (is_int 4 version || is_int 6 version)) "SNELL_VERSION_INVALID"
  let psk = text_or p (text "psk") o []
  refuse_if (bad_psk version psk) "SNELL_PSK_INVALID"
  let keyed =
      set (text "reuse") (bool (truthy p (get (text "reuse") o)))
        (set (text "psk") (str (take 2048 psk)) (set (text "version") (int version) node))
  networked ←
      add_network (text "SNELL_NETWORK_INVALID") (network_of p o)
        (copy_texts p 2048 (text "userkey" ∷ []) o keyed)
  snell_mode p version o networked

-- `if isinstance(outbound.get("udp_over_tcp"), (bool, dict)): ...`
abbrev pub add_udp_over_tcp : Json → Dict → Dict
add_udp_over_tcp (bool b) node = set (text "udp_over_tcp") (bool b) node
add_udp_over_tcp (obj d) node = set (text "udp_over_tcp") (obj d) node
add_udp_over_tcp _ node = node

unfoldable pub json_socks : Python → Dict → Dict → Result Exc Dict
json_socks p o node = do
  let version = lower p.tables (text_or p (text "version") o (text "5"))
  refuse_if (not (elem version (text "4" ∷ text "4a" ∷ text "5" ∷ []))) "SOCKS_VERSION_INVALID"
  networked ← add_network (text "SOCKS_NETWORK_INVALID") (network_of p o) (
      copy_texts p 2048 (text "username" ∷ text "password" ∷ []) o
        (set (text "version") (str version) node))
  ok (add_udp_over_tcp (get (text "udp_over_tcp") o) networked)

-- `{str(k)[:128]: str(v)[:2048] for k, v in list(headers.items())[:n]}` behind the entries of `out`.
unfoldable pub cut_headers : Python → ℕ → Dict → Dict → Dict
cut_headers p zero d out = out
cut_headers p (suc n) end out = out
cut_headers p (suc n) (field k v d) out =
    cut_headers p n d (set (take 128 k) (str (take 2048 (to_str p v))) out)

abbrev pub add_headers : Python → Json → Dict → Dict
add_headers p (obj d) node = set (text "headers") (obj (cut_headers p 32 d end)) node
add_headers p _ node = node

unfoldable pub json_http : Python → Dict → Dict → Result Exc Dict
json_http p o node = ok (
    add_headers p (get (text "headers") o)
      (copy_texts p 2048 (text "username" ∷ text "password" ∷ text "path" ∷ []) o node))

unfoldable pub json_naive : Python → Dict → Dict → Result Exc Dict
json_naive p o node = do
  let named = copy_texts p 2048 (text "username" ∷ text "password" ∷ []) o node
  n ← or_error "NAIVE_CONCURRENCY_INVALID" (int_or p (text "insecure_concurrency") o (pos 0))
  ok (
      copy_texts p 64 (text "quic_congestion_control" ∷ []) o (
        set (text "quic") (bool (truthy p (get (text "quic") o)))
          (set (text "insecure_concurrency") (int (clamp 64 n)) named)))
