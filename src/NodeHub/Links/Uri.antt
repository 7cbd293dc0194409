-- ===== src/NodeHub/Links/Uri.antt =====
-- `parse_uri` of app/nodehub.py: a link becomes a node.
pub mod Link
pub mod Parsed
use free_net_hub.Prelude.{
  ℕ, zero, suc, ◌+◌, ◌-◌, Bool, true, false, not, ◌&&◌, ◌||◌, Option, none, some, List, [], ◌∷◌,
  ◌++◌, length, take, drop, leb, ltb, ◌==◌, any, is_nil, if◌then◌else◌, Result, ok, err, ◌>>=◌,
  ◌>>◌,
}
use free_net_hub.Text.{Text, text, eq_text, elem, strip, lower, starts_with}
use free_net_hub.Json.{
  ℤ, pos, negsuc, Json, null, bool, int, str, arr, obj, Dict, end, field, Exc, value_error,
  other_error, get, to_str, or_else, to_int, in_range,
}
use free_net_hub.NodeHub.Values.{refuse_if, or_error, text_or, int_or}
use free_net_hub.NodeHub.JsonNode.{finish}
use free_net_hub.NodeHub.Links.{
  Web, Query, b64_bytes, name_of, host_port, cut_first, before, cut_last,
}
use free_net_hub.NodeHub.Links.Transport.{transport}
use free_net_hub.NodeHub.Links.Security.{tls}
use free_net_hub.NodeHub.Links.Schemes.{
  head, set_tls, uri_tuic, uri_anytls, uri_hysteria, uri_stream,
}

-- `s.split("://", 1)[1]`
unfoldable pub after_scheme : Text → Result Exc Text
unfolding starts_with
after_scheme [] = err other_error
after_scheme (c ∷ s) =
    let rest = after_scheme s in if starts_with (c ∷ s) (text "://") then ok (drop 2 s) else rest

-- `j.get(k1) or j.get(k2) or default`, as a text.
abbrev pub either_text : Web → Text → Text → Dict → Text → Text
either_text w a b j default =
    to_str w.python (or_else w.python (get a j) (or_else w.python (get b j) (str default)))

-- `str(j.get(k) or "")` under another key.
abbrev pub row : Web → Dict → Text → Text → Text × Text
row w j k key = (k, text_or w.python key j [])

-- The query that stands for the fields of a VMess link.
unfoldable pub vmess_query : Web → Dict → Query
vmess_query w j =
    (text "type", text_or w.python (text "net") j (text "tcp"))
    ∷ row w j (text "host") (text "host")
    ∷ row w j (text "path") (text "path")
    ∷ row w j (text "sni") (text "sni")
    ∷ row w j (text "fp") (text "fp")
    ∷ row w j (text "security") (text "tls")
    ∷ row w j (text "alpn") (text "alpn")
    ∷ row w j (text "serviceName") (text "serviceName")
    ∷ []

-- The JSON of a VMess link; what is no `dict` has no `get`.
unfoldable pub vmess_dict : Web → Text → Result Exc Dict
vmess_dict w payload = do
  j ←
      or_error "VMESS_DECODE_FAILED"
        (do bytes ← b64_bytes w payload; s ← w.decode_utf8_sig bytes; w.loads s)
  elim j [ obj d ↦ ok d | v ↦ err other_error ]

-- A port that is in range.
abbrev pub port_number : ℤ → ℕ
port_number (pos n) = n
port_number (negsuc n) = 0

unfoldable pub uri_vmess : Web → Text → Result Exc Dict
uri_vmess w raw = do
  body ← after_scheme raw
  j ← vmess_dict w (before b'#' body)
  let server = strip (either_text w (text "add") (text "server") j [])
  port ← or_error "NODE_PORT_INVALID" (to_int w.python (get (text "port") j))
  let uid = strip (text_or w.python (text "id") j [])
  refuse_if (is_nil server || (is_nil uid || not (in_range 1 65535 port))) "VMESS_REQUIRED_FIELDS"
  alter_id ← int_or w.python (text "aid") j (pos 0)
  t ← tls w (vmess_query w j) server false
  v ← transport w (vmess_query w j)
  ok (
      set_tls t v (
        head (text "vmess") (text_or w.python (text "ps") j (text "VMess " ++ server)) server
          (port_number port)
          (field (text "uuid") (str uid) (
            field (text "security")
              (str (either_text w (text "scy") (text "security") j (text "auto")))
              (field (text "alter_id") (int alter_id) end)))))

-- `decoded` where the link has its user in front of "@".
unfoldable pub ss_user : Web → Text → Text
ss_user w userinfo =
    let plain = w.unquote userinfo in
    if any (λ c. c == b':') plain
    then plain
    else elim (b64_bytes w userinfo >>= w.decode_utf8) [ ok s ↦ s | err e ↦ plain ]

-- The user and the endpoint of a Shadowsocks link.
unfoldable pub ss_parts : Web → Text → Result Exc (Text × Text)
ss_parts w main = elim (cut_last b'@' main) [
  | some pair ↦ ok (ss_user w pair.0, pair.1)
  | none ↦ (do
    all ← or_error "SS_DECODE_FAILED" (b64_bytes w main >>= w.decode_utf8)
    elim (cut_last b'@' all) [
      | some pair ↦ ok pair
      | none ↦ err (value_error (text "SS_ENDPOINT_REQUIRED"))
    ])
]

abbrev pub or_refuse : Option (Text × Text) → Result Exc (Text × Text)
or_refuse none = err (value_error (text "SS_CREDENTIALS_INVALID"))
or_refuse (some pair) = ok pair

abbrev pub behind : ℕ → Text → Text
behind c s = elim (cut_first c s) [ none ↦ [] | some pair ↦ pair.1 ]

unfoldable pub uri_ss : Web → Text → Result Exc Dict
uri_ss w raw = do
  body ← after_scheme raw
  found ← ss_parts w (before b'?' (before b'#' body))
  user ← or_refuse (cut_first b':' found.0)
  parts ← w.urlsplit (text "ss://" ++ found.1)
  at ← host_port parts
  ok (
      head (text "ss") (name_of w (behind b'#' body) (text "SS " ++ at.0)) at.0 at.1
        (field (text "method") (str user.0) (field (text "password") (str user.1) end)))

unfoldable pub schemes : List Text
schemes =
    text "ss"
    ∷ text "vmess"
    ∷ text "vless"
    ∷ text "trojan"
    ∷ text "hysteria"
    ∷ text "hysteria2"
    ∷ text "hy2"
    ∷ text "tuic"
    ∷ text "anytls"
    ∷ []

unfoldable pub scheme_of : Web → Text → Text
scheme_of w raw =
    lower w.python.tables (elim (cut_first b':' raw) [ none ↦ [] | some pair ↦ pair.0 ])

-- `if scheme == "hy2": scheme = "hysteria2"`
abbrev pub full_scheme : Text → Text
full_scheme scheme = if eq_text scheme (text "hy2") then text "hysteria2" else scheme

-- The branch of the scheme.
unfoldable pub by_scheme : Web → Text → Text → Result Exc Dict
unfolding eq_text
by_scheme w raw scheme =
    if eq_text scheme (text "vmess")
    then uri_vmess w raw
    else if eq_text scheme (text "ss")
    then uri_ss w raw
    else if eq_text scheme (text "tuic")
    then uri_tuic w raw
    else if eq_text scheme (text "anytls")
    then uri_anytls w raw
    else if eq_text scheme (text "hysteria")
    then uri_hysteria w raw
    else uri_stream w raw scheme

-- `parse_uri`
unfoldable pub parse_uri : Web → Text → Result Exc Dict
unfolding schemes eq_text
parse_uri w uri = do
  let raw = strip uri
  refuse_if (ltb 8192 (length raw)) "NODE_URI_TOO_LARGE"
  refuse_if (not (elem (scheme_of w raw) schemes)) "NODE_PROTOCOL_UNSUPPORTED"
  node ← by_scheme w raw (full_scheme (scheme_of w raw))
  ok (finish w.python raw node)
