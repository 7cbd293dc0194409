-- ===== src/NodeHub/Merge/Distinct.antt =====
-- The ids in the list that `merge` of app/nodehub.py returns.
use free_net_hub.Prelude.{
  ℕ, zero, suc, ◌≡◌, refl, ap, ◌≤◌, ◌⊎◌, inl, inr, true, false, Bool-cases, List, [], ◌∷◌, map,
  take, length, length-take, All, arith, Result, ok, Ensures, Ensures-ok, Ensures-bind,
  Ensures-self,
}
use free_net_hub.Text.{Text, text, eq_text, elem}
use free_net_hub.Text.Affix.{eq_of_eq_text, eq_text_refl, In, Distinct}
use free_net_hub.Json.{str, Dict, Exc, Python, Key, named, to_key, get, truthy, to_str}
use free_net_hub.NodeHub.Merge.{
  Rows, eq_key, find, put, index, merge_one, merge_all, merge, max_nodes,
}
use free_net_hub.NodeHub.Merge.Marks.{
  IsMerged, need-get, keep_marks-IsMarked, keep_tests-AgreesOff, merged-IsMerged,
}

-- The id of a node as a text, and the ids of the rows.
abbrev pub id_text : Python → Dict → Text
id_text p n = to_str p (get (text "id") n)

abbrev ids : Python → Rows → List Text
ids p [] = []
ids p ((k, d) ∷ rows) = id_text p d ∷ ids p rows

-- Each row stands under its node's id, and no id has two rows.
record IsIndex (p : Python) (rows : Rows) : Type 0 where
  aligned : All (λ row. row.0 ≡ named (id_text p row.1)) rows
  distinct : Distinct (ids p rows)

eq_named : {k : Key} {a b : Text} → k ≡ named a → eq_key k (named b) ≡ true → a ≡ b
unfolding eq_key
eq_named {k} {a} {b} e h = eq_of_eq_text a b (rw e at h)

other_named : {k : Key} {a b : Text} → k ≡ named a → eq_key k (named b) ≡ false → ¬ (a ≡ b)
unfolding eq_key
other_named {k} {a} {b} e h alike =
    let h' : eq_text a b ≡ false = rw e at h in
    let yes : eq_text a b ≡ true = rw alike (eq_text_refl b) in cc

module _ (p : Python) (d : Dict) where
  In-put :
      (t : Text) (rows : Rows)
      → In t (ids p (put (named (id_text p d)) d rows))
      → (t ≡ id_text p d) ⊎ In t (ids p rows)
  unfolding put
  In-put t [] h = h
  In-put t ((k, e) ∷ rows) h = elim (Bool-cases (eq_key k (named (id_text p d)))) [
    | inl same ↦
        let h' = rw same at h in elim h' [ inl here ↦ inl here | inr there ↦ inr (inr there) ]
    | inr other ↦
        let h' = rw other at h in
        elim h' [
          | inl here ↦ inr (inl here)
          | inr there ↦ elim (In-put t rows there) [ inl new ↦ inl new | inr old ↦ inr (inr old) ]
        ]
  ]

  IsIndex-put : (rows : Rows) → IsIndex p rows → IsIndex p (put (named (id_text p d)) d rows)
  unfolding put
  IsIndex-put [] h = record { aligned = (refl, tt); distinct = (λ bad. bad, tt) }
  IsIndex-put ((k, e) ∷ rows) h =
      let (head, rest) = h.aligned in
      let (fresh, others) = h.distinct in
      elim (Bool-cases (eq_key k (named (id_text p d)))) [
        | inl same ↦
            let alike : id_text p e ≡ id_text p d = eq_named head same in
            rw same record {
              aligned = (rw head (ap (λ t. named t) alike), rest);
              distinct = (rw (← alike) fresh, others);
            }
        | inr other ↦
            let inner = IsIndex-put rows record { aligned = rest; distinct = others } in
            let new : ¬ (id_text p e ≡ id_text p d) = λ alike. other_named head other alike in
            rw other record {
              aligned = (head, inner.aligned);
              distinct = (
                λ bad. elim (In-put (id_text p e) rows bad) [
                  | inl alike ↦ new alike
                  | inr old ↦ fresh old
                ],
                inner.distinct,
              );
            }
      ]

IsIndex-index :
    (p : Python) (ns : List Dict) (rows : Rows) → IsIndex p rows → IsIndex p (index p ns rows)
unfolding index
IsIndex-index p [] rows h = h
IsIndex-index p (n ∷ ns) rows h = elim (Bool-cases (truthy p (get (text "id") n))) [
  | inl kept ↦ rw kept (IsIndex-index p ns _ (IsIndex-put p n rows h))
  | inr left ↦ rw left (IsIndex-index p ns rows h)
]

-- The id of a node is a text, as `_id` makes it.
abbrev pub HasId : Dict → Type 0
HasId n = (s : Text) × (get (text "id") n ≡ str s)

to_key-id_text :
    (p : Python) (n : Dict) → HasId n → to_key p (get (text "id") n) ≡ ok (named (id_text p n))
unfolding to_key to_str
to_key-id_text p n (s, e) = rw e refl

ok-injective : {A : Type 0} {a b : A} {r : Result Exc A} → r ≡ ok a → r ≡ ok b → a ≡ b
ok-injective h k = cc

merge_one-IsIndex :
    (p : Python) (n : Dict) (rows : Rows)
    → HasId n
    → IsIndex p rows
    → Ensures (IsIndex p) (merge_one p n rows)
unfolding merge_one elem
merge_one-IsIndex p n rows hasId h = Ensures-bind _ _ (need-get (text "id") n) (λ id same.
    Ensures-bind _ _ (Ensures-self (to_key p id)) (λ key e.
      Ensures-bind _ _ (keep_marks-IsMarked p (find key rows) n) (λ marked m.
        Ensures-bind _ _ (keep_tests-AgreesOff p (find key rows) marked) (λ x t.
          let all_same : IsMerged p (find key rows) n x =
            merged-IsMerged p (find key rows) n marked x m t in
          let id_same : get (text "id") x ≡ get (text "id") n =
            all_same.others (text "id") refl refl in
          let key_same : key ≡ named (id_text p n) =
            ok-injective (rw (← same) e) (to_key-id_text p n hasId) in
          let here : key ≡ named (id_text p x) = rw id_same key_same in
          Ensures-ok _ (rw here (IsIndex-put p x rows h))))))

merge_all-IsIndex :
    (p : Python) (ns : List Dict) (rows : Rows)
    → All HasId ns
    → IsIndex p rows
    → Ensures (IsIndex p) (merge_all p ns rows)
unfolding merge_all
merge_all-IsIndex p [] rows a h = Ensures-ok rows h
merge_all-IsIndex p (n ∷ ns) rows a h =
    Ensures-bind _ _ (merge_one-IsIndex p n rows a.0 h)
      (λ more k. merge_all-IsIndex p ns more a.1 k)

In-take : (t : Text) (m : ℕ) (rows : List Text) → In t (take m rows) → In t rows
In-take t zero rows h = absurd h
In-take t (suc m) [] h = h
In-take t (suc m) (a ∷ rows) h = elim h [
  | inl here ↦ inl here
  | inr there ↦ inr (In-take t m rows there)
]

Distinct-take : (m : ℕ) (rows : List Text) → Distinct rows → Distinct (take m rows)
Distinct-take zero rows h = tt
Distinct-take (suc m) [] h = tt
Distinct-take (suc m) (a ∷ rows) h = (λ bad. h.0 (In-take a m rows bad), Distinct-take m rows h.1)

taken_ids :
    (p : Python) (m : ℕ) (rows : Rows)
    → map (id_text p) (take m (map (λ row. row.1) rows)) ≡ take m (ids p rows)
taken_ids p zero rows = refl
taken_ids p (suc m) [] = refl
taken_ids p (suc m) ((k, d) ∷ rows) = ap (λ r. id_text p d ∷ r) (taken_ids p m rows)

short_take : (m : ℕ) (ds : List Dict) → length (take m ds) ≤ m
short_take m ds = omega (arith, length-take m ds)

abbrev IsOut : Python → List Dict → Type 0
IsOut p out = Distinct (map (id_text p) out) × (length out ≤ max_nodes)

IsIndex-IsOut :
    (p : Python) (rows : Rows) → IsIndex p rows → IsOut p (take max_nodes (map (λ row. row.1) rows))
IsIndex-IsOut p rows h = (
  rw (taken_ids p max_nodes rows) (Distinct-take max_nodes (ids p rows) h.distinct),
  short_take max_nodes (map (λ row. row.1) rows),
)

merge-IsOut :
    (p : Python) (existing incoming : List Dict)
    → All HasId incoming
    → Ensures (IsOut p) (merge p existing incoming)
unfolding merge
merge-IsOut p existing incoming a =
    Ensures-bind _ _
      (merge_all-IsIndex p incoming (index p existing []) a
        (IsIndex-index p existing [] record { aligned = tt; distinct = tt }))
      (λ rows h. Ensures-ok _ (IsIndex-IsOut p rows h))

-- Where the new nodes have texts for ids, no two nodes of the merged list have the same id, and there
-- are at most 2000 of them; nothing is asked of the stored ones.
pub merge-Distinct :
    (p : Python) (existing incoming out : List Dict)
    → All HasId incoming
    → merge p existing incoming ≡ ok out
    → Distinct (map (id_text p) out) × (length out ≤ max_nodes)
merge-Distinct p existing incoming out a = (merge-IsOut p existing incoming a).at out
