-- ===== src/NodeHub/Links/Blob/Total.antt =====
-- `_singbox_json_nodes` of app/nodehub.py returns, whatever text it is given.
use free_net_hub.Prelude.{
  ◌≡◌, refl, true, Bool-cases, inl, inr, [], ◌∷◌, All, none, some, Option, Result, ok, err,
}
use free_net_hub.Text.{Text}
use free_net_hub.Json.{
  Json, null, bool, int, real, str, arr, obj, Items, nil, cons, Dict, Exc, value_error, other_error,
}
use free_net_hub.NodeHub.JsonNode.{singbox_json_node}
use free_net_hub.NodeHub.JsonNode.Caught.{caught, caught-singbox_json_node}
use free_net_hub.NodeHub.JsonNode.Accepted.{IsNode, singbox_json_node-IsNode}
use free_net_hub.NodeHub.Links.{Web}
use free_net_hub.NodeHub.Links.Blob.{
  Found, candidates, first_json, rows_of, add_result, wanted, read_rows, singbox_json_nodes,
}

-- A run that returns, with nodes that may be stored.
abbrev pub Returns : Result Exc Found → Type 0
Returns r = (found : Found) × (r ≡ ok found) × All IsNode found.0

add_result-Returns :
    (r : Result Exc Dict) (found : Found)
    → caught r ≡ true
    → ((node : Dict) → r ≡ ok node → IsNode node)
    → All IsNode found.0
    → Returns (add_result r found)
unfolding caught
add_result-Returns (ok node) found c h a = ((node ∷ found.0, found.1), refl, (h node refl, a))
add_result-Returns (err (value_error code)) found c h a = ((found.0, code ∷ found.1), refl, a)
add_result-Returns (err other_error) found c h a = cc

row-Returns :
    (w : Web) (row : Json) (found : Found)
    → wanted w row ≡ true
    → All IsNode found.0
    → Returns (add_result (singbox_json_node w.python row) found)
row-Returns w null found h a = cc
row-Returns w (bool b) found h a = cc
row-Returns w (int n) found h a = cc
row-Returns w (real r) found h a = cc
row-Returns w (str s) found h a = cc
row-Returns w (arr xs) found h a = cc
row-Returns w (obj o) found h a =
    add_result-Returns (singbox_json_node w.python (obj o)) found
      (caught-singbox_json_node w.python o)
      (λ node e. (singbox_json_node-IsNode w.python o node e).0) a

read_rows-Returns : (w : Web) (rows : Items) → Returns (read_rows w rows)
unfolding read_rows
read_rows-Returns w nil = (([], []), refl, tt)
read_rows-Returns w (cons row rows) =
    let (found, e, a) = read_rows-Returns w rows in
    elim (Bool-cases (wanted w row)) [
      | inl kept ↦ rw (kept, e) (row-Returns w row found kept a)
      | inr left ↦ rw left (found, e, a)
    ]

-- Whatever text is pasted, its sing-box JSON never stops the import: the function returns, with the
-- errors as texts, and every node that it returns is one that may be stored.
pub singbox_json_nodes-Returns : (w : Web) (s : Text) → Returns (singbox_json_nodes w s)
unfolding singbox_json_nodes
singbox_json_nodes-Returns w s = go (first_json w (candidates w s))
  where
    go :
        (v : Option Json)
        → Returns (elim v [ none ↦ ok ([], []) | some j ↦ read_rows w (rows_of w j) ])
    go none = (([], []), refl, tt)
    go (some j) = read_rows-Returns w (rows_of w j)
