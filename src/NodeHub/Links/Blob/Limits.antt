-- ===== src/NodeHub/Links/Blob/Limits.antt =====
-- The bounds on what `parse_blob` of app/nodehub.py returns.
use free_net_hub.Prelude.{
  ◌≤◌, ◌<◌, ◌≡◌, refl, ap, inl, inr, false, Bool-cases, List, [], ◌∷◌, ◌++◌, map, take, length,
  length-append, length-take, leb, All, All-append, arith, Result, ok, err, Ensures, Ensures-ok,
  Ensures-err, Ensures-any, Ensures-bind,
}
use free_net_hub.Text.{Text, text, eq_text, elem}
use free_net_hub.Text.Affix.{In, Distinct, In-append_one, Distinct-append_one, not_In_of_elem}
use free_net_hub.Json.{str, Dict, Exc, value_error, other_error, get, set, to_str}
use free_net_hub.Json.Keys.{get-set}
use free_net_hub.NodeHub.Links.{Web}
use free_net_hub.NodeHub.Links.Uri.{parse_uri}
use free_net_hub.NodeHub.Links.Blob.{
  Blob, max_blob, add_node, add_link, add_links, add_nodes, Import, extract_uris,
  singbox_json_nodes, parse_blob,
}

-- The id of a node as a text.
abbrev pub node_text : Web → Dict → Text
node_text w n = to_str w.python (get (text "id") n)

abbrev ids : Web → List Dict → List Text
ids w [] = []
ids w (n ∷ ns) = node_text w n ∷ ids w ns

ids-append : (w : Web) (xs ys : List Dict) → ids w (xs ++ ys) ≡ ids w xs ++ ids w ys
ids-append w [] ys = refl
ids-append w (x ∷ xs) ys = ap (λ r. node_text w x ∷ r) (ids-append w xs ys)

ids-map : (w : Web) (xs : List Dict) → map (node_text w) xs ≡ ids w xs
ids-map w [] = refl
ids-map w (x ∷ xs) = ap (λ r. node_text w x ∷ r) (ids-map w xs)

-- What the loops keep: every id is seen and stands once, the limit is kept, and each node has the
-- source.
record IsBlob (w : Web) (source : Text) (b : Blob) : Type 0 where
  known : (t : Text) → In t (ids w b.nodes) → In t b.seen
  distinct : Distinct (ids w b.nodes)
  short : length b.nodes ≤ max_blob
  sourced : All (λ n. get (text "source") n ≡ str (take 120 source)) b.nodes

module _ (w : Web) (source : Text) where
  new_id : (n : Dict) → node_text w (set (text "source") (str (take 120 source)) n) ≡ node_text w n
  unfolding eq_text
  new_id n = ap (to_str w.python) (get-set (text "source") (text "id") _ n)

  fresh-IsBlob :
      (n : Dict) (b : Blob)
      → length b.nodes < max_blob
      → elem (node_text w n) b.seen ≡ false
      → IsBlob w source b
      → IsBlob w source record {
        nodes = b.nodes ++ (set (text "source") (str (take 120 source)) n ∷ []);
        errors = b.errors;
        seen = node_text w n ∷ b.seen;
      }
  unfolding eq_text
  fresh-IsBlob n b room new h =
      let x = set (text "source") (str (take 120 source)) n in
      let e : ids w (b.nodes ++ (x ∷ [])) ≡ ids w b.nodes ++ (node_text w n ∷ []) =
        rw (ids-append w b.nodes (x ∷ []), new_id n) refl in
      let unseen : ¬ In (node_text w n) (ids w b.nodes) =
        λ i. not_In_of_elem (node_text w n) b.seen new (h.known _ i) in
      record {
        known = λ t i. elim (In-append_one t (node_text w n) (ids w b.nodes) (rw e at i)) [
          | inl old ↦ inr (h.known t old)
          | inr same ↦ inl same
        ];
        distinct = rw e (Distinct-append_one (ids w b.nodes) (node_text w n) h.distinct unseen);
        short = omega (arith, room, length-append b.nodes (x ∷ []));
        sourced =
            All-append _ b.nodes (x ∷ []) h.sourced
              (get-set (text "source") (text "source") _ n, tt);
      }

  add_node-IsBlob :
      (n : Dict) (b : Blob)
      → length b.nodes < max_blob
      → IsBlob w source b
      → IsBlob w source (add_node w source n b)
  unfolding add_node
  add_node-IsBlob n b room h = elim (Bool-cases (elem (node_text w n) b.seen)) [
    | inl old ↦ rw old h
    | inr new ↦ rw new (fresh-IsBlob n b room new h)
  ]

  add_nodes-IsBlob :
      (ns : List Dict) (b : Blob) → IsBlob w source b → IsBlob w source (add_nodes w source ns b)
  unfolding add_nodes
  add_nodes-IsBlob [] b h = h
  add_nodes-IsBlob (n ∷ ns) b h = elim (Bool-cases (leb max_blob (length b.nodes))) [
    | inl full ↦ rw full h
    | inr free ↦
        rw free (add_nodes-IsBlob ns (add_node w source n b) (add_node-IsBlob n b (ground arith) h))
  ]

  add_link-IsBlob :
      (r : Result Exc Dict) (b : Blob)
      → length b.nodes < max_blob
      → IsBlob w source b
      → Ensures (IsBlob w source) (add_link w source r b)
  unfolding add_link
  add_link-IsBlob (ok n) b room h = Ensures-ok _ (add_node-IsBlob n b room h)
  add_link-IsBlob (err (value_error code)) b room h =
      Ensures-ok _
        record { known = h.known; distinct = h.distinct; short = h.short; sourced = h.sourced }
  add_link-IsBlob (err other_error) b room h = Ensures-err _

  add_links-IsBlob :
      (links : List Text) (b : Blob)
      → IsBlob w source b
      → Ensures (IsBlob w source) (add_links w source links b)
  unfolding add_links
  add_links-IsBlob [] b h = Ensures-ok b h
  add_links-IsBlob (raw ∷ more) b h = elim (Bool-cases (leb max_blob (length b.nodes))) [
    | inl full ↦ rw full (Ensures-ok b h)
    | inr free ↦ rw free (
        Ensures-bind _ _ (add_link-IsBlob (parse_uri w raw) b (ground arith) h)
          (λ next k. add_links-IsBlob more next k))
  ]

-- What an import keeps within bounds.
pub record IsBounded (w : Web) (source : Text) (i : Import) : Type 0 where
  pub distinct : Distinct (map (node_text w) i.nodes)
  pub sourced : All (λ n. get (text "source") n ≡ str (take 120 source)) i.nodes
  pub counted : i.found ≡ length i.nodes
  pub nodes_bound : length i.nodes ≤ 2000
  pub errors_bound : length i.errors ≤ 100

import-IsBounded :
    (w : Web) (source : Text) (b : Blob) (codes : List Text)
    → IsBlob w source b
    → IsBounded w source record { nodes = b.nodes; errors = take 100 codes; found = length b.nodes }
import-IsBounded w source b codes h = record {
  distinct = rw (ids-map w b.nodes) h.distinct;
  sourced = h.sourced;
  counted = refl;
  nodes_bound = h.short;
  errors_bound = omega (arith, length-take 100 codes);
}

blob-IsBounded : (w : Web) (s source : Text) → Ensures (IsBounded w source) (parse_blob w s source)
unfolding parse_blob
blob-IsBounded w s source =
    let start : IsBlob w source record { nodes = []; errors = []; seen = [] } = record {
      known = λ t i. i;
      distinct = tt;
      short = omega arith;
      sourced = tt;
    } in
    Ensures-any (extract_uris w s) _ (λ links.
      Ensures-bind _ _
        (add_links-IsBlob w source links record { nodes = []; errors = []; seen = [] } start)
        (λ linked h. Ensures-any (singbox_json_nodes w s) _ (λ json.
          Ensures-ok _
            (import-IsBounded w source _ _ (add_nodes-IsBlob w source json.0 linked h)))))

-- However long the pasted text is: no two nodes of an import have the same id, there are at most 2000
-- nodes, which `found` counts, and at most 100 errors, and each node has the first 120 characters of the
-- source.
pub parse_blob-IsBounded :
    (w : Web) (s source : Text) {i : Import} → parse_blob w s source ≡ ok i → IsBounded w source i
parse_blob-IsBounded w s source {i} = (blob-IsBounded w s source).at i
