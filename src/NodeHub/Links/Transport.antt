-- ===== src/NodeHub/Links/Transport.antt =====
-- `_transport` of app/nodehub.py.
use free_net_hub.Prelude.{
  not, ◌&&◌, ◌||◌, Option, none, some, List, [], ◌∷◌, ◌++◌, map, length, ltb, ◌==◌, is_nil, any,
  if◌then◌else◌, Result, ok, err, ◌>>=◌, ◌>>◌,
}
use free_net_hub.Text.{Text, text, eq_text, elem, strip, lower, upper, split_on}
use free_net_hub.Json.{
  Json, null, int, str, arr, obj, Dict, end, field, Exc, value_error, set, to_int, in_range,
}
use free_net_hub.NodeHub.Values.{refuse_if, or_error, set_if}
use free_net_hub.NodeHub.Links.{
  Web, Query, first_of, value, or_text, says_true, cut_first, texts, filled,
}

-- The type of the transport; none where there is nothing to set up.
unfoldable pub transport_type : Web → Query → Option Text
unfolding first_of value lower eq_text elem
transport_type w q =
    let given = lower w.python.tables (first_of (text "type" ∷ text "net" ∷ []) [] q) in
    let legacy = says_true w (value (text "ws") q) || not (is_nil (value (text "wspath") q)) in
    let kind = if is_nil given then (if legacy then text "ws" else text "tcp") else given in
    let header =
      lower w.python.tables (first_of (text "headerType" ∷ text "headertype" ∷ []) [] q) in
    if elem kind (text "tcp" ∷ text "none" ∷ [] ∷ [])
    then if eq_text header (text "http") then some (text "http") else none
    else some kind

-- The loop over the pairs of a query: the early data, if none is known, and the other pairs.
unfoldable pub split_early : Text → List (Text × Text) → Text × List (Text × Text)
unfolding eq_text
split_early ed [] = (ed, [])
split_early ed ((k, v) ∷ pairs) =
    let taken = eq_text k (text "ed") && is_nil ed in
    let rest = split_early (if taken then v else ed) pairs in
    if taken then rest else (rest.0, (k, v) ∷ rest.1)

abbrev pub query_text : Web → List (Text × Text) → Text
query_text w [] = []
query_text w (pair ∷ kept) = b'?' ∷ w.urlencode (pair ∷ kept)

-- The path and the early data, which may stand in the path's own query.
unfoldable pub early_path : Web → Text → Text → Text × Text
unfolding cut_first
early_path w path ed = elim (cut_first b'?' path) [
  | none ↦ (path, ed)
  | some pair ↦
      let split = split_early ed (w.parse_qsl pair.1) in (pair.0 ++ query_text w split.1, split.0)
]

-- `if ed: ...`
unfoldable pub add_early : Web → Text → Text → Dict → Result Exc Dict
unfolding to_int
add_early w ed eh out = if is_nil ed then ok out else do
  early ← or_error "NODE_WS_EARLY_DATA_INVALID" (to_int w.python (str ed))
  refuse_if (not (in_range 1 8192 early)) "NODE_WS_EARLY_DATA_INVALID"
  let header = or_text eh (text "Sec-WebSocket-Protocol")
  refuse_if (ltb 128 (length header) || (any (λ c. c == 13) header || any (λ c. c == 10) header))
      "NODE_WS_EARLY_HEADER_INVALID"
  ok (
      set (text "early_data_header_name") (str header)
        (set (text "max_early_data") (int early) out))

unfoldable pub web_socket : Web → Query → Result Exc Dict
unfolding first_of value
web_socket w q =
    let path = w.unquote (first_of (text "path" ∷ text "wspath" ∷ []) (text "/") q) in
    let eh = strip (w.unquote (value (text "eh") q)) in
    let early = early_path w path (strip (value (text "ed") q)) in
    let out =
      field (text "type") (str (text "ws"))
        (field (text "path") (str (or_text early.0 (text "/"))) end) in
    let host = value (text "host") q in
    add_early w early.1 eh
      (set_if (not (is_nil host)) (text "headers") (obj (field (text "Host") (str host) end)) out)

abbrev pub path_of : Web → Query → Text
path_of w q = w.unquote (first_of (text "path" ∷ []) (text "/") q)

-- A list under the key, unless it is empty.
abbrev pub set_texts : Text → List Text → Dict → Dict
set_texts k rows d = set_if (not (is_nil rows)) k (arr (texts rows)) d

abbrev pub typed_path : Text → Text → Dict
typed_path kind path = field (text "type") (str kind) (field (text "path") (str path) end)

-- The branches behind the type.
unfoldable pub transport_fields : Web → Query → Text → Result Exc Dict
unfolding eq_text elem first_of value
transport_fields w q kind =
    let host = value (text "host") q in
    if eq_text kind (text "ws")
    then web_socket w q
    else if elem kind (text "http" ∷ text "h2" ∷ [])
    then ok (
        set_texts (text "host") (filled (map strip (split_on b',' host)))
          (typed_path (text "http") (path_of w q)))
    else if eq_text kind (text "grpc")
    then ok (
        field (text "type") (str (text "grpc")) (
          field (text "service_name")
            (str (w.unquote (first_of (text "serviceName" ∷ text "service_name" ∷ []) [] q))) end))
    else if eq_text kind (text "httpupgrade")
    then ok (
        set_if (not (is_nil host)) (text "host") (str host)
          (typed_path (text "httpupgrade") (path_of w q)))
    else if eq_text kind (text "quic")
    then ok (field (text "type") (str (text "quic")) end)
    else err (value_error (text "NODE_TRANSPORT_UNSUPPORTED_" ++ upper w.python.tables kind))

-- `_transport`
unfoldable pub transport : Web → Query → Result Exc Json
transport w q = elim (transport_type w q) [
  | none ↦ ok null
  | some kind ↦ (do fields ← transport_fields w q kind; ok (obj fields))
]
