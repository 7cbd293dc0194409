-- ===== src/NodeHub/Links/Blob/Scan.antt =====
-- The links that `extract_uris` of app/nodehub.py finds in a text of one link on each line.
use free_net_hub.Prelude.{
  ℕ, zero, suc, ◌+◌, ◌-◌, ◌≤◌, ◌<◌, ◌≡◌, refl, ap, ◌∙◌, inl, inr, true, false, ◌||◌, List, [], ◌∷◌,
  ◌++◌, map, take, drop, length, length-append, take-append_long, take_all, ltb, ◌==◌, is_nil, all,
  All, and-eq_true, arith, if◌then◌else◌, append_assoc, append-nil, ok,
}
use free_net_hub.Text.{Text, text, elem, join, starts_with, is_space}
use free_net_hub.Text.Affix.{In, elem-In}
use free_net_hub.Text.Utf8.{utf8_length}
use free_net_hub.NodeHub.Links.{Web}
use free_net_hub.NodeHub.Links.Blob.{
  link_schemes, prefix_length, in_link, run_length, match_length, find_all, trim, links_in,
  max_node_text, extract_uris,
}

-- A link by its scheme and what stands behind "://".
pub record Link : Type 0 where
  pub scheme : Text
  pub body : Text

abbrev pub link_text : Link → Text
link_text l = l.scheme ++ (text "://" ++ l.body)

-- A link that a text can hold as it is: one of the schemes, a body without blanks and quotes, and
-- nothing at its end that a sentence may add.
pub record IsWhole (l : Link) : Type 0 where
  pub known : elem l.scheme link_schemes ≡ true
  pub filled : is_nil l.body ≡ false
  pub plain : all in_link l.body ≡ true
  pub untrimmed : trim (link_text l) ≡ link_text l

-- A text that is empty or whose first character ends a link.
abbrev Ends : Text → Type 0
Ends [] = Unit
Ends (c ∷ s) = in_link c ≡ false

known_prefixes :
    All
      (λ a.
        (s : Text) → prefix_length link_schemes (a ++ (text "://" ++ s)) ≡ length (a ++ text "://"))
      link_schemes
unfolding prefix_length starts_with
known_prefixes = (
  λ s. refl,
  (
    λ s. refl,
    (λ s. refl, (λ s. refl, (λ s. refl, (λ s. refl, (λ s. refl, (λ s. refl, (λ s. refl, tt))))))),
  ),
)

All-In : (P : Text → Type 0) (a : Text) (rows : List Text) → All P rows → In a rows → P a
All-In P a [] h i = absurd i
All-In P a (b ∷ rows) h (inl e) = rw e h.0
All-In P a (b ∷ rows) h (inr i) = All-In P a rows h.1 i

run_length_skip : (x y : Text) → run_length (length x) (x ++ y) ≡ run_length 0 y
unfolding run_length
run_length_skip [] y = refl
run_length_skip (c ∷ x) y = run_length_skip x y

run_length_whole :
    (body rest : Text)
    → all in_link body ≡ true
    → Ends rest
    → run_length 0 (body ++ rest) ≡ length body
unfolding run_length
run_length_whole [] [] h e = refl
run_length_whole [] (c ∷ rest) h e = rw e refl
run_length_whole (c ∷ body) rest h e =
    let (a, b) = and-eq_true (in_link c) (all in_link body) h in
    rw (a, run_length_whole body rest b e) refl

find_all_skip : (k : ℕ) (s : Text) → find_all k s ≡ find_all 0 (drop k s)
unfolding find_all
find_all_skip zero s = refl
find_all_skip (suc k) [] = refl
find_all_skip (suc k) (c ∷ s) = find_all_skip k s

-- The text of a link and what follows it, cut behind "://".
link_text_cut :
    (l : Link) (rest : Text) → link_text l ++ rest ≡ (l.scheme ++ text "://") ++ (l.body ++ rest)
link_text_cut l rest =
    rw
      (
        append_assoc l.scheme (text "://" ++ l.body) rest,
        append_assoc l.scheme (text "://") (l.body ++ rest),
      )
      refl

prefix_length-link :
    (l : Link) (rest : Text)
    → IsWhole l
    → prefix_length link_schemes (link_text l ++ rest) ≡ length (l.scheme ++ text "://")
prefix_length-link l rest h = rw (append_assoc l.scheme (text "://" ++ l.body) rest) (
    All-In
      (λ a.
        (s : Text) → prefix_length link_schemes (a ++ (text "://" ++ s)) ≡ length (a ++ text "://"))
      l.scheme link_schemes known_prefixes (elem-In l.scheme link_schemes h.known) (l.body ++ rest))

run_length-link :
    (l : Link) (rest : Text)
    → IsWhole l
    → Ends rest
    → run_length (length (l.scheme ++ text "://")) (link_text l ++ rest) ≡ length l.body
run_length-link l rest h e =
    rw (link_text_cut l rest, run_length_skip (l.scheme ++ text "://") (l.body ++ rest))
      (run_length_whole l.body rest h.plain e)

length-link_text :
    (l : Link) → length (link_text l) ≡ length (l.scheme ++ text "://") + length l.body
length-link_text l = omega (
  arith,
  length-append l.scheme (text "://" ++ l.body),
  length-append (text "://") l.body,
  length-append l.scheme (text "://"),
)

filled_length : (s : Text) → is_nil s ≡ false → 0 < length s
filled_length [] h = cc
filled_length (c ∷ s) h = omega arith

matched : (p r n : ℕ) → 0 < p → 0 < r → n ≡ p + r → (if p == 0 || r == 0 then 0 else p + r) ≡ n
matched p r n hp hr e = ground arith

-- The pattern matches exactly the link.
match_length-link :
    (l : Link) (rest : Text)
    → IsWhole l
    → Ends rest
    → match_length (link_text l ++ rest) ≡ length (link_text l)
unfolding match_length
match_length-link l rest h e =
    let some_body = filled_length l.body h.filled in
    rw (prefix_length-link l rest h, run_length-link l rest h e)
      (matched (length (l.scheme ++ text "://")) (length l.body) (length (link_text l))
        (omega (arith, length-append l.scheme (text "://"))) some_body (length-link_text l))

suc_ne_zero : (k : ℕ) → (suc k == 0) ≡ false
suc_ne_zero k = ground arith

find_all-match :
    (s : Text) (k : ℕ)
    → match_length s ≡ suc k
    → find_all 0 s ≡ take (suc k) s ∷ find_all 0 (drop (suc k) s)
unfolding find_all match_length prefix_length starts_with
find_all-match [] k h = cc
find_all-match (c ∷ s) k h =
    let e : suc k - 1 ≡ k = omega arith in
    let f = suc_ne_zero k in rw (h, e, f, find_all_skip k s) refl

drop_whole : (t rest : Text) → drop (length t) (t ++ rest) ≡ rest
drop_whole [] rest = refl
drop_whole (c ∷ t) rest = drop_whole t rest

find_all-known :
    (t rest : Text)
    → 0 < length t
    → match_length (t ++ rest) ≡ length t
    → find_all 0 (t ++ rest) ≡ t ∷ find_all 0 rest
find_all-known [] rest pos h = absurd (omega arith)
find_all-known (c ∷ t) rest pos h =
    find_all-match (c ∷ (t ++ rest)) (length t) h
    ∙ rw
        (
          take-append_long (length t) t rest (omega arith),
          take_all (length t) t (omega arith),
          drop_whole t rest,
        )
        refl

-- A line's end matches nothing.
find_all_line : (s : Text) → find_all 0 (10 ∷ s) ≡ find_all 0 s
unfolding find_all match_length prefix_length starts_with
find_all_line s = refl

link_text_filled : (l : Link) → IsWhole l → 0 < length (link_text l)
link_text_filled l h = let f = filled_length l.body h.filled in omega (arith, length-link_text l)

find_all-join :
    (ls : List Link) → All IsWhole ls → find_all 0 (join 10 (map link_text ls)) ≡ map link_text ls
unfolding join find_all is_space
find_all-join [] h = refl
find_all-join (l ∷ []) h =
    let (whole, _) = h in
    let e : find_all 0 (link_text l ++ []) ≡ link_text l ∷ [] =
      find_all-known (link_text l) [] (link_text_filled l whole)
        (match_length-link l [] whole tt) in
    rw (append-nil (link_text l)) at e
find_all-join (l ∷ k ∷ ls) h =
    let (whole, more) = h in
    let lines = join 10 (map link_text (k ∷ ls)) in
    rw
      (
        find_all-known (link_text l) (10 ∷ lines) (link_text_filled l whole)
            (match_length-link l (10 ∷ lines) whole refl),
        find_all_line lines,
        find_all-join (k ∷ ls) more,
      )
      refl

map-trim : (ls : List Link) → All IsWhole ls → map trim (map link_text ls) ≡ map link_text ls
map-trim [] h = refl
map-trim (l ∷ ls) h = let (whole, more) = h in rw (whole.untrimmed, map-trim ls more) refl

-- Links of the nine schemes, each with a body without blanks and quotes and with none of `),.;]` at its
-- end, one on each line, within the limit of 2 MiB and without entities of HTML, are found as they
-- stand, in their order.
pub extract_uris_round_trip :
    (w : Web) (l : Link) (ls : List Link)
    → All IsWhole (l ∷ ls)
    → w.unescape (join 10 (map link_text (l ∷ ls))) ≡ join 10 (map link_text (l ∷ ls))
    → utf8_length (join 10 (map link_text (l ∷ ls))) ≤ max_node_text
    → extract_uris w (join 10 (map link_text (l ∷ ls))) ≡ ok (map link_text (l ∷ ls))
unfolding extract_uris links_in
extract_uris_round_trip w l ls h plain size =
    let s = join 10 (map link_text (l ∷ ls)) in
    let small : ltb max_node_text (utf8_length s) ≡ false = ground arith in
    let found : map trim (find_all 0 s) ≡ map link_text (l ∷ ls) =
      ap (map trim) (find_all-join (l ∷ ls) h) ∙ map-trim (l ∷ ls) h in
    rw (plain, small, found) refl
