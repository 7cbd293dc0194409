-- ===== src/NodeHub/Links/Blob.antt =====
-- `extract_uris`, `_singbox_json_nodes` and `parse_blob` of app/nodehub.py: the nodes in a text that a
-- person pastes.
pub mod Scan
pub mod Limits
pub mod Total
use free_net_hub.Prelude.{
  ℕ, zero, suc, ◌+◌, ◌-◌, Bool, true, false, not, ◌&&◌, ◌||◌, Option, none, some, List, [], ◌∷◌,
  ◌++◌, map, length, take, leb, ltb, ◌==◌, any, is_nil, if◌then◌else◌, Result, ok, err, ◌>>=◌, ◌>>◌,
}
use free_net_hub.Text.{Text, text, eq_text, elem, lower_char, rstrip, lstrip, starts_with, is_space}
use free_net_hub.Text.Utf8.{utf8_length}
use free_net_hub.Json.{
  Json, null, bool, int, real, str, arr, obj, Items, nil, cons, Dict, Exc, value_error, other_error,
  get, set, truthy, to_str,
}
use free_net_hub.NodeHub.Values.{refuse_if}
use free_net_hub.NodeHub.JsonNode.{json_types, type_of, singbox_json_node}
use free_net_hub.NodeHub.Links.{Web, filter, b64_bytes}
use free_net_hub.NodeHub.Links.Uri.{parse_uri}

-- A character as a pattern without case reads it.
abbrev pub fold_char : ℕ → ℕ
fold_char c = if c == 0x130 || c == 0x131 then b'i' else if c == 0x17f then b's' else lower_char c

-- The schemes of `_URI_RE`.
abbrev pub link_schemes : List Text
link_schemes =
    text "vmess"
    ∷ text "vless"
    ∷ text "trojan"
    ∷ text "ss"
    ∷ text "hysteria"
    ∷ text "hysteria2"
    ∷ text "hy2"
    ∷ text "tuic"
    ∷ text "anytls"
    ∷ []

-- How long the prefix `scheme://` is at the front of the text, or 0.
unfoldable pub prefix_length : List Text → Text → ℕ
unfolding starts_with
prefix_length [] s = 0
prefix_length (a ∷ schemes) s =
    let rest = prefix_length schemes s in
    let p = a ++ text "://" in
    if starts_with (map fold_char (take (length p) s)) p then length p else rest

-- `[^\s<>"']`
abbrev pub in_link : ℕ → Bool
in_link c = not (is_space c || (c == b'<' || (c == b'>' || (c == b'"' || c == 39))))

-- How many characters at the front are in a link, behind the first `skip` ones.
unfoldable pub run_length : ℕ → Text → ℕ
unfolding is_space
run_length skip [] = 0
run_length (suc skip) (c ∷ s) = run_length skip s
run_length zero (c ∷ s) = let rest = run_length zero s in if in_link c then suc rest else 0

-- The length of the match of `_URI_RE` at the front of the text, or 0.
unfoldable pub match_length : Text → ℕ
match_length s =
    let p = prefix_length link_schemes s in
    let r = run_length p s in if p == 0 || r == 0 then 0 else p + r

-- `_URI_RE.findall`, behind the first `skip` characters.
unfoldable pub find_all : ℕ → Text → List Text
unfolding match_length
find_all skip [] = []
find_all (suc skip) (c ∷ s) = find_all skip s
find_all zero (c ∷ s) =
    let m = match_length (c ∷ s) in
    let rest = find_all (m - 1) s in if m == 0 then rest else take m (c ∷ s) ∷ rest

-- `x.rstrip("),.;]")`
abbrev pub trim : Text → Text
trim s = rstrip (λ c. c == b')' || (c == b',' || (c == b'.' || (c == b';' || c == b']')))) s

unfoldable pub links_in : Text → List Text
unfolding find_all rstrip
links_in s = map trim (find_all 0 s)

-- `_b64decode("".join(s.split())).decode("utf-8-sig")`
unfoldable pub decode_compact : Web → Text → Result Exc Text
unfolding is_space
decode_compact w s = b64_bytes w (filter (λ c. not (is_space c)) s) >>= w.decode_utf8_sig

abbrev pub max_node_text : ℕ
max_node_text = 2097152

-- `extract_uris`
unfoldable pub extract_uris : Web → Text → Result Exc (List Text)
extract_uris w s = do
  let plain = w.unescape s
  refuse_if (ltb max_node_text (utf8_length plain)) "NODE_INPUT_TOO_LARGE"
  let direct = links_in plain
  ok (
      if is_nil direct
      then elim (decode_compact w plain) [ ok decoded ↦ links_in decoded | err e ↦ [] ]
      else direct)

-- The texts that may be JSON.
unfoldable pub candidates : Web → Text → List Text
unfolding starts_with lstrip
candidates w s = s ∷ elim (decode_compact w s) [
  | err e ↦ []
  | ok decoded ↦
      let opened = lstrip decoded in
      if starts_with opened (text "{") || starts_with opened (text "[") then decoded ∷ [] else []
]

-- The first candidate that is JSON.
unfoldable pub first_json : Web → List Text → Option Json
first_json w [] = none
first_json w (s ∷ more) =
    let rest = first_json w more in elim (w.loads s) [ ok v ↦ some v | err e ↦ rest ]

-- `rows`; none where the JSON is no configuration.
unfoldable pub rows_of : Web → Json → Items
unfolding truthy get
rows_of w (arr xs) = xs
rows_of w (obj d) = elim (get (text "outbounds") d) [
  | arr xs ↦ xs
  | v ↦ if truthy w.python (get (text "type") d) then cons (obj d) nil else nil
]
rows_of w v = nil

abbrev pub Found : Type 0
Found = List Dict × List Text

-- What a row adds: a node, or the text of a `ValueError`; another exception is not caught.
abbrev pub add_result : Result Exc Dict → Found → Result Exc Found
add_result (ok node) found = ok (node ∷ found.0, found.1)
add_result (err (value_error code)) found = ok (found.0, code ∷ found.1)
add_result (err other_error) found = err other_error

abbrev pub wanted : Web → Json → Bool
wanted w (obj d) = elem (type_of w.python d) json_types
wanted w v = false

-- The loop over the rows, from the last one.
unfoldable pub read_rows : Web → Items → Result Exc Found
unfolding elem
read_rows w nil = ok ([], [])
read_rows w (cons row rows) =
    let rest = read_rows w rows in
    if wanted w row then rest >>= add_result (singbox_json_node w.python row) else rest

-- `_singbox_json_nodes`
unfoldable pub singbox_json_nodes : Web → Text → Result Exc Found
singbox_json_nodes w s = elim (first_json w (candidates w s)) [
  | none ↦ ok ([], [])
  | some v ↦ read_rows w (rows_of w v)
]

-- The local variables of `parse_blob`; an id is a text, as `_id` makes it.
pub record Blob : Type 0 where
  pub nodes : List Dict
  pub errors : List Text
  pub seen : List Text

abbrev pub max_blob : ℕ
max_blob = 2000

-- `if n["id"] in seen: continue` and the four lines behind it.
unfoldable pub add_node : Web → Text → Dict → Blob → Blob
unfolding elem to_str get
add_node w source n b =
    let id = to_str w.python (get (text "id") n) in
    if elem id b.seen then b else record {
      nodes = b.nodes ++ (set (text "source") (str (take 120 source)) n ∷ []);
      errors = b.errors;
      seen = id ∷ b.seen;
    }

-- What a link adds.
unfoldable pub add_link : Web → Text → Result Exc Dict → Blob → Result Exc Blob
add_link w source (ok n) b = ok (add_node w source n b)
add_link w source (err (value_error code)) b =
    ok record { nodes = b.nodes; errors = b.errors ++ (code ∷ []); seen = b.seen }
add_link w source (err other_error) b = err other_error

-- The loop over the links.
unfoldable pub add_links : Web → Text → List Text → Blob → Result Exc Blob
add_links w source [] b = ok b
add_links w source (raw ∷ more) b =
    if leb max_blob (length b.nodes)
    then ok b
    else (do next ← add_link w source (parse_uri w raw) b; add_links w source more next)

-- The loop over the nodes of the JSON.
unfoldable pub add_nodes : Web → Text → List Dict → Blob → Blob
add_nodes w source [] b = b
add_nodes w source (n ∷ more) b =
    if leb max_blob (length b.nodes) then b else add_nodes w source more (add_node w source n b)

-- What `parse_blob` returns.
pub record Import : Type 0 where
  pub nodes : List Dict
  pub errors : List Text
  pub found : ℕ

-- `parse_blob`
unfoldable pub parse_blob : Web → Text → Text → Result Exc Import
parse_blob w s source = do
  links ← extract_uris w s
  linked ← add_links w source links record { nodes = []; errors = []; seen = [] }
  json ← singbox_json_nodes w s
  let all = add_nodes w source json.0 linked
  ok record {
    nodes = all.nodes;
    errors = take 100 (all.errors ++ json.1);
    found = length all.nodes;
  }
