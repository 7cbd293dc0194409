-- ===== src/NodeHub/Merge.antt =====
-- `merge` and `public_node` of app/nodehub.py: newly read nodes are put among the stored ones, and
-- what the user interface is given of a node.
pub mod Distinct
pub mod Marks
use free_net_hub.Prelude.{
  ℕ, ◌-◌, Bool, true, false, not, ◌&&◌, List, [], ◌∷◌, take, if◌then◌else◌, Result, ok, err, ◌>>=◌,
  map,
}
use free_net_hub.Text.{Text, text, eq_text}
use free_net_hub.Json.{
  pos, Json, null, bool, int, str, arr, obj, Items, nil, Dict, end, field, Exc, Python, Key, named,
  scalar, to_key, get, get_or, set, truthy, to_str, to_int, or_else, to_list, length_items,
  drop_items,
}
use free_net_hub.NodeHub.Values.{need, take_items, is_obj}

-- The local variable `by_id`, in the order of insertion.
abbrev pub Rows : Type 0
Rows = List (Key × Dict)

unfoldable pub eq_key : Key → Key → Bool
unfolding eq_text
eq_key (named a) (named b) = eq_text a b
eq_key (scalar a) (scalar b) = eq_text a b
eq_key _ _ = false

-- `by_id.get(key, {})`
unfoldable pub find : Key → Rows → Dict
unfolding eq_key
find k [] = end
find k ((j, d) ∷ rows) = let rest = find k rows in if eq_key j k then d else rest

-- `by_id[key] = d`
unfoldable pub put : Key → Dict → Rows → Rows
unfolding eq_key
put k d [] = (k, d) ∷ []
put k d ((j, e) ∷ rows) =
    let rest = put k d rows in if eq_key j k then (j, d) ∷ rows else (j, e) ∷ rest

-- `{str(n.get("id")): dict(n) for n in existing if n.get("id")}` behind the rows.
unfoldable pub index : Python → List Dict → Rows → Rows
index p [] rows = rows
index p (n ∷ ns) rows = index p ns (
    if truthy p (get (text "id") n)
    then put (named (to_str p (get (text "id") n))) n rows
    else rows)

-- `xs[-n:]`
unfoldable pub last_items : ℕ → Items → Items
last_items n xs = drop_items (length_items xs - n) xs

-- `if old.get(k): x[k] = old[k]`
abbrev pub keep_old : Python → Text → Dict → Dict → Dict
keep_old p k old x = if truthy p (get k old) then set k (get k old) x else x

-- `if old.get(k): x[k] = list(old[k])[-n:]`
abbrev pub keep_last : Python → ℕ → Text → Dict → Dict → Result Exc Dict
keep_last p n k old x =
    if truthy p (get k old)
    then (do xs ← to_list (get k old); ok (set k (arr (last_items n xs)) x))
    else ok x

-- `old.get(k, x.get(k, default))`
abbrev pub mark : Text → Json → Dict → Dict → Json
mark k default old x = get_or (get_or default k x) k old

-- What a person has said about a node: the old node's word stands.
unfoldable pub keep_marks : Python → Dict → Dict → Result Exc Dict
keep_marks p old n = do
  let favored =
      set (text "favorite") (bool (truthy p (mark (text "favorite") (bool false) old n))) n
  let pinned =
      set (text "pinned") (bool (truthy p (mark (text "pinned") (bool false) old favored))) favored
  rating ← to_int p (or_else p (mark (text "rating") (int (pos 0)) old pinned) (int (pos 0)))
  let rated = set (text "rating") (int rating) pinned
  tags ← to_list (or_else p (mark (text "tags") (arr nil) old rated) (arr nil))
  let tagged = set (text "tags") (arr (take_items 16 tags)) rated
  ok (
      set (text "note")
        (str (take 500 (to_str p (or_else p (mark (text "note") (str []) old tagged) (str [])))))
        tagged)

-- What the tests of a node have found.
unfoldable pub keep_tests : Python → Dict → Dict → Result Exc Dict
keep_tests p old x = do
  past ←
      keep_last p 20 (text "history") old
        (keep_old p (text "endpoint_test") old (keep_old p (text "last_test") old x))
  keep_last p 12 (text "performance_history") old (keep_old p (text "performance_test") old past)

-- One turn of the loop.
unfoldable pub merge_one : Python → Dict → Rows → Result Exc Rows
merge_one p n rows = do
  id ← need (text "id") n
  key ← to_key p id
  marked ← keep_marks p (find key rows) n
  x ← keep_tests p (find key rows) marked
  ok (put key x rows)

unfoldable pub merge_all : Python → List Dict → Rows → Result Exc Rows
merge_all p [] rows = ok rows
merge_all p (n ∷ ns) rows = do more ← merge_one p n rows; merge_all p ns more

abbrev pub max_nodes : ℕ
max_nodes = 2000

-- `merge`
unfoldable pub merge : Python → List Dict → List Dict → Result Exc (List Dict)
merge p existing incoming = do
  rows ← merge_all p incoming (index p existing [])
  ok (take max_nodes (map (λ row. row.1) rows))

-- `node.get(k) if isinstance(node.get(k), dict) else None`
abbrev pub dict_or_null : Json → Json
dict_or_null (obj d) = obj d
dict_or_null _ = null

-- `list(node.get(k, []) or [])`
unfoldable pub list_of : Python → Text → Dict → Result Exc Items
list_of p k node = to_list (or_else p (get_or (arr nil) k node) (arr nil))

-- `public_node`
unfoldable pub public_node : Python → Dict → Result Exc Dict
public_node p node = do
  rating ← to_int p (or_else p (get_or (int (pos 0)) (text "rating") node) (int (pos 0)))
  tags ← list_of p (text "tags") node
  history ← list_of p (text "history") node
  performance ← list_of p (text "performance_history") node
  let note = take 500 (to_str p (or_else p (get_or (str []) (text "note") node) (str [])))
  let tests = field (text "source") (get_or (str []) (text "source") node) (
      field (text "last_test") (dict_or_null (get (text "last_test") node)) (
        field (text "endpoint_test") (dict_or_null (get (text "endpoint_test") node)) (
          field (text "performance_test") (dict_or_null (get (text "performance_test") node)) (
            field (text "history") (arr (last_items 20 history))
              (field (text "performance_history") (arr (last_items 12 performance)) end)))))
  let marks = field (text "favorite") (bool (truthy p (get (text "favorite") node))) (
      field (text "pinned") (bool (truthy p (get (text "pinned") node))) (
        field (text "rating") (int rating)
          (field (text "tags") (arr (take_items 16 tags)) (field (text "note") (str note) tests))))
  ok (
      field (text "id") (get (text "id") node) (
        field (text "name") (get (text "name") node) (
          field (text "protocol") (get (text "protocol") node) (
            field (text "server") (get (text "server") node)
              (field (text "port") (get (text "port") node) marks)))))
