-- ===== src/Selective/Domains/Merge.antt =====
-- The lists that `merge_domains` returns.
use free_net_hub.Prelude.{
  ◌≡◌, ◌≢◌, refl, sym, ap, ◌∙◌, ◌⊎◌, inl, inr, ◌++◌, List, [], ◌∷◌, ltb, All-append, length, ok,
  err, Untyped, typed, ill_typed, Bool-cases, is_nil, if◌then◌else◌, append_assoc, append-nil, ◌↔◌,
}
use free_net_hub.Text.{Text, Tables, elem, join, strip}
use free_net_hub.Text.Affix.{Distinct-append_one, In, Distinct, elem-In, not_In_of_elem}
use free_net_hub.Selective.Domains.{
  append_new, parse_domains, parse_current, merge_domains, domain_limit,
}
use free_net_hub.Selective.Domains.Canonical.{
  IsAdmissible, IsCanonical, parse_domains-IsCanonical, empty-IsCanonical,
}
use free_net_hub.Selective.Domains.Reparse.{add_all, parse_domains-join, add_all-eq-append}

add_all-append : (rows xs ys : List Text) → add_all rows (xs ++ ys) ≡ add_all (add_all rows xs) ys
unfolding add_all
add_all-append rows [] ys = refl
add_all-append rows (x ∷ xs) ys = add_all-append (append_new rows x) xs ys

parse_current-IsCanonical :
    (t : Tables) (current : Untyped Text) {xs : List Text}
    → parse_current t current ≡ ok xs
    → IsCanonical xs
unfolding parse_current
parse_current-IsCanonical t ill_typed h = (parse_domains-IsCanonical t ill_typed h).0
parse_current-IsCanonical t (typed s) {xs} h = elim (Bool-cases (is_nil (strip s))) [
  | inl blank ↦ let e : [] ≡ xs = cc (blank, h) in rw (← e) empty-IsCanonical
  | inr full ↦ (parse_domains-IsCanonical t (typed s) (rw full at h)).0
]

-- The stored domains stand first, in their order, then the new ones; each domain of either list is
-- in the result and nothing else is.
pub record IsUnion (xs ys ds : List Text) : Type 0 where
  pub behind : List Text
  pub order : ds ≡ xs ++ behind
  pub from_either : (a : Text) → In a ds → In a xs ⊎ In a ys
  pub has_new : (a : Text) → In a ys → In a ds

In-append : (a : Text) (xs ys : List Text) → In a (xs ++ ys) ↔ (In a xs ⊎ In a ys)
In-append a [] ys = (λ i. inr i, λ s. elim s [ inl i ↦ absurd i | inr i ↦ i ])
In-append a (x ∷ xs) ys = (
  λ i. elim i [
    | inl e ↦ inl (inl e)
    | inr j ↦ elim ((In-append a xs ys).0 j) [ inl k ↦ inl (inr k) | inr k ↦ inr k ]
  ],
  λ s. elim s [
    | inl i ↦ elim i [ inl e ↦ inl e | inr j ↦ inr ((In-append a xs ys).1 (inl j)) ]
    | inr i ↦ inr ((In-append a xs ys).1 (inr i))
  ],
)

append_new-IsUnion : (rows : List Text) (d : Text) → IsUnion rows (d ∷ []) (append_new rows d)
unfolding append_new
append_new-IsUnion rows d = elim (Bool-cases (elem d rows)) [
  | inl old ↦ rw old (record {
    behind = [];
    order = sym (append-nil rows);
    from_either = λ a i. inl i;
    has_new = λ a i. elim i [ inl e ↦ rw e (elem-In d rows old) | inr j ↦ absurd j ];
  })
  | inr new ↦ rw new (record {
    behind = d ∷ [];
    order = refl;
    from_either = λ a i. (In-append a rows (d ∷ [])).0 i;
    has_new = λ a i. (In-append a rows (d ∷ [])).1 (inr i);
  })
]

In-add_all : (a : Text) (rows ds : List Text) → In a rows → In a (add_all rows ds)
unfolding add_all
In-add_all a rows [] i = i
In-add_all a rows (d ∷ ds) i =
    let u : IsUnion rows (d ∷ []) (append_new rows d) = append_new-IsUnion rows d in
    In-add_all a (append_new rows d) ds (rw u.order ((In-append a rows u.behind).1 (inl i)))

add_all-IsUnion : (rows ds : List Text) → IsUnion rows ds (add_all rows ds)
unfolding add_all
add_all-IsUnion rows [] = record {
  behind = [];
  order = sym (append-nil rows);
  from_either = λ a i. inl i;
  has_new = λ a i. absurd i;
}
add_all-IsUnion rows (d ∷ ds) =
    let u : IsUnion rows (d ∷ []) (append_new rows d) = append_new-IsUnion rows d in
    let v : IsUnion (append_new rows d) ds (add_all (append_new rows d) ds) =
      add_all-IsUnion (append_new rows d) ds in
    record {
      behind = u.behind ++ v.behind;
      order = v.order ∙ ap (λ r. r ++ v.behind) u.order ∙ append_assoc rows u.behind v.behind;
      from_either = λ a i. elim (v.from_either a i) [
        | inr j ↦ inr (inr j)
        | inl j ↦ elim (u.from_either a j) [
          | inl k ↦ inl k
          | inr k ↦ elim k [ inl e ↦ inr (inl e) | inr none_left ↦ absurd none_left ]
        ]
      ];
      has_new = λ a i. elim i [
        | inl e ↦ In-add_all a (append_new rows d) ds (u.has_new a (inl e))
        | inr j ↦ v.has_new a j
      ];
    }

-- With both texts parsed, the merge of the two lists is their union, unless that has more than 64
-- entries, and then it is refused.
merge_parsed :
    (t : Tables) (xs ys : List Text)
    → IsCanonical xs
    → IsCanonical ys
    → ys ≢ []
    → parse_domains t (typed (join b'\n' (xs ++ ys)))
      ≡ (if ltb 64 (length (add_all xs ys)) then err domain_limit else ok (add_all xs ys))
merge_parsed t [] [] hx hy n = absurd (n refl)
merge_parsed t [] (y ∷ ys) hx hy n = parse_domains-join t y ys hy.admissible
merge_parsed t (x ∷ xs) ys hx hy n =
    parse_domains-join t x (xs ++ ys)
      (All-append IsAdmissible (x ∷ xs) ys hx.admissible hy.admissible)
    ∙ rw (add_all-append [] (x ∷ xs) ys, add_all-eq-append [] (x ∷ xs) hx.distinct) refl

append_new-Distinct : (rows : List Text) (d : Text) → Distinct rows → Distinct (append_new rows d)
unfolding append_new
append_new-Distinct rows d h = elim (Bool-cases (elem d rows)) [
  | inl old ↦ rw old h
  | inr new ↦ rw new (Distinct-append_one rows d h (not_In_of_elem d rows new))
]

add_all-Distinct : (rows ds : List Text) → Distinct rows → Distinct (add_all rows ds)
unfolding add_all
add_all-Distinct rows [] h = h
add_all-Distinct rows (d ∷ ds) h =
    add_all-Distinct (append_new rows d) ds (append_new-Distinct rows d h)

-- Where both texts parse, the outcome is the union of the two lists without repetitions, with the
-- stored domains first and in their order; if it has more than 64 domains, the merge is refused.
pub merge_domains-IsUnion :
    (t : Tables) (current extra : Untyped Text) (xs ys : List Text)
    → parse_current t current ≡ ok xs
    → parse_domains t extra ≡ ok ys
    → (ds : List Text) × IsUnion xs ys ds
      × Distinct ds
      × (merge_domains t current extra ≡ (if ltb 64 (length ds) then err domain_limit else ok ds))
merge_domains-IsUnion t current extra xs ys hx hy =
    let cx : IsCanonical xs = parse_current-IsCanonical t current hx in
    let (cy, full) = parse_domains-IsCanonical t extra hy in
    (
      add_all xs ys,
      add_all-IsUnion xs ys,
      add_all-Distinct xs ys cx.distinct,
      unfold merge_domains in rw (hx, hy) (merge_parsed t xs ys cx cy full),
    )
