-- ===== src/Selective/Domains/Reparse.antt =====
-- `parse_domains` on text that lists admissible domains, as `merge_domains` and `pac_script` write.
use free_net_hub.Prelude.{
  ℕ, ◌≤◌, ◌≡◌, ◌≢◌, sym, ap, ◌∙◌, inl, inr, refl, ◌++◌, true, false, List, [], ◌∷◌, arith, ltb, all,
  All, append_assoc, append-nil, get_last, ◌==◌, length, length-append, ok, err, Untyped, typed,
  Bool-cases, is_nil, if◌then◌else◌, and-eq_true,
}
use free_net_hub.Text.{Text, Tables, elem, is_space, join}
use free_net_hub.Text.Affix.{In, Distinct, elem-In}
use free_net_hub.Text.Split.{Free, IsWord, split_runs-join}
use free_net_hub.Text.Strip.{strip-join}
use free_net_hub.Hosts.Fixed.{
  IsShaped, in_host, chars_in_host, shaped_ne_nil, shaped-IsWord, lower-shaped, strip-shaped,
  encode_idna-shaped, no_wildcard, last_no_dot, no_empty,
}
use free_net_hub.Selective.Domains.{
  admit, append_new, collect, parse_domains, is_separator, drop_wildcard, drop_final_dot,
  domain_limit,
}
use free_net_hub.Selective.Domains.Canonical.{
  IsAdmissible, IsCanonical, screen-admissible, parse_domains-IsCanonical,
}

drop_final_dot-last :
    (c : ℕ) (s : Text) → (get_last c s == b'.') ≡ false → drop_final_dot (c ∷ s) ≡ c ∷ s
unfolding drop_final_dot
drop_final_dot-last c [] h = rw h
drop_final_dot-last c (d ∷ s) h = ap (λ r. c ∷ r) (drop_final_dot-last d s h)

pub drop_final_dot-shaped : (d : Text) → IsShaped d → drop_final_dot d ≡ d
drop_final_dot-shaped [] h = absurd (shaped_ne_nil [] h refl)
drop_final_dot-shaped (c ∷ s) h = drop_final_dot-last c s (last_no_dot c s (no_empty (c ∷ s) h))

-- An admissible domain is admitted as it stands.
pub admit-admissible : (t : Tables) (d : Text) → IsAdmissible d → admit t d ≡ ok d
unfolding admit drop_wildcard
admit-admissible t d h =
    rw
      (
        lower-shaped d h.shaped t,
        strip-shaped d h.shaped,
        no_wildcard d h.shaped,
        drop_final_dot-shaped d h.shaped,
        encode_idna-shaped d t h.shaped,
      )
      (screen-admissible d d h)

-- The list that results from adding each of some domains in turn.
unfoldable pub add_all : List Text → List Text → List Text
add_all rows [] = rows
add_all rows (d ∷ ds) = add_all (append_new rows d) ds

is_nil_of_length : (rows : List Text) → 1 ≤ length rows → is_nil rows ≡ false
is_nil_of_length [] h = absurd (omega arith)
is_nil_of_length (r ∷ rows) h = refl

length-append_new : (rows : List Text) (d : Text) → length rows ≤ length (append_new rows d)
unfolding append_new
length-append_new rows d = ground (arith, length-append rows (d ∷ []))

length-add_all : (rows ds : List Text) → length rows ≤ length (add_all rows ds)
unfolding add_all
length-add_all rows [] = omega arith
length-add_all rows (d ∷ ds) =
    omega (arith, length-add_all (append_new rows d) ds, length-append_new rows d)

pub collect-admissible :
    (t : Tables) (rows ds : List Text)
    → length rows ≤ 64
    → All IsAdmissible ds
    → collect t rows ds
      ≡ (if ltb 64 (length (add_all rows ds)) then err domain_limit else ok (add_all rows ds))
unfolding collect add_all
collect-admissible t rows [] short h = ground arith
collect-admissible t rows ([] ∷ ds) short h = absurd (shaped_ne_nil [] h.0.shaped refl)
collect-admissible t rows ((c ∷ raw) ∷ ds) short h =
    rw (admit-admissible t (c ∷ raw) h.0)
      (elim (Bool-cases (ltb 64 (length (append_new rows (c ∷ raw))))) [
        | inl long ↦ ground (arith, length-add_all (append_new rows (c ∷ raw)) ds)
        | inr fits ↦
            rw fits (collect-admissible t (append_new rows (c ∷ raw)) ds (ground arith) h.1)
      ])

In-middle : (rows : List Text) (d : Text) (ds : List Text) → In d (rows ++ (d ∷ ds))
In-middle [] d ds = inl refl
In-middle (r ∷ rows) d ds = inr (In-middle rows d ds)

not_In_middle :
    (rows : List Text) (d : Text) (ds : List Text) → Distinct (rows ++ (d ∷ ds)) → ¬ In d rows
not_In_middle [] d ds h i = i
not_In_middle (r ∷ rows) d ds h (inl same) = h.0 (rw (← same) (In-middle rows d ds))
not_In_middle (r ∷ rows) d ds h (inr i) = not_In_middle rows d ds h.1 i

not_elem_middle :
    (rows : List Text) (d : Text) (ds : List Text)
    → Distinct (rows ++ (d ∷ ds))
    → elem d rows ≡ false
not_elem_middle rows d ds h = elim (Bool-cases (elem d rows)) [
  | inl old ↦ absurd (not_In_middle rows d ds h (elem-In d rows old))
  | inr new ↦ new
]

pub add_all-eq-append : (rows ds : List Text) → Distinct (rows ++ ds) → add_all rows ds ≡ rows ++ ds
unfolding add_all append_new
add_all-eq-append rows [] h = sym (append-nil rows)
add_all-eq-append rows (d ∷ ds) h = rw (not_elem_middle rows d ds h) (
    add_all-eq-append (rows ++ (d ∷ [])) ds (rw (append_assoc rows (d ∷ []) ds) h)
    ∙ append_assoc rows (d ∷ []) ds)

no_separator : (c : ℕ) → in_host c ≡ true → is_separator c ≡ false
unfolding is_separator is_space
no_separator c h = ground arith

separator-Free : (s : Text) → all in_host s ≡ true → Free is_separator s
separator-Free [] h = tt
separator-Free (c ∷ s) h =
    let (a, b) = and-eq_true (in_host c) (all in_host s) h in (no_separator c a, separator-Free s b)

pub words_of :
    (ds : List Text) → All IsAdmissible ds → All (IsWord is_space) ds × All (IsWord is_separator) ds
words_of [] h = (tt, tt)
words_of (d ∷ ds) h =
    let (a, b) = words_of ds h.1 in
    let shaped : IsShaped d = h.0.shaped in
    (
      (shaped-IsWord d shaped, a),
      ((shaped_ne_nil d shaped, separator-Free d (chars_in_host d shaped)), b),
    )

full : (d : Text) (ds : List Text) → is_nil (add_all [] (d ∷ ds)) ≡ false
unfolding add_all append_new elem
full d ds = is_nil_of_length (add_all (d ∷ []) ds) (length-add_all (d ∷ []) ds)

-- The text that joins admissible domains by newlines parses to the domains, each once.
pub parse_domains-join :
    (t : Tables) (d : Text) (ds : List Text)
    → All IsAdmissible (d ∷ ds)
    → parse_domains t (typed (join b'\n' (d ∷ ds))) ≡ (
        if ltb 64 (length (add_all [] (d ∷ ds)))
        then err domain_limit
        else ok (add_all [] (d ∷ ds)))
unfolding parse_domains
parse_domains-join t d ds h =
    let (spaces, seps) = words_of (d ∷ ds) h in
    rw
      (
        strip-join b'\n' d ds spaces,
        split_runs-join is_separator b'\n' d ds (unfold is_separator is_space in refl) seps,
        collect-admissible t [] (d ∷ ds) (omega arith) h,
      )
      (elim (Bool-cases (ltb 64 (length (add_all [] (d ∷ ds))))) [
        | inl long ↦ rw long refl
        | inr fits ↦ rw (fits, full d ds) refl
      ])

pub parse_domains-canonical :
    (t : Tables) (ds : List Text)
    → IsCanonical ds
    → ds ≢ []
    → parse_domains t (typed (join b'\n' ds)) ≡ ok ds
parse_domains-canonical t [] h n = absurd (n refl)
parse_domains-canonical t (d ∷ ds) h n =
    parse_domains-join t d ds h.admissible
    ∙ rw (add_all-eq-append [] (d ∷ ds) h.distinct) (ground (arith, h.bounded))

-- Parsing is stable: the domains that a text parses to, listed one a line, parse to themselves.
pub parse_domains_stable :
    (t : Tables) (value : Untyped Text) {ds : List Text}
    → parse_domains t value ≡ ok ds
    → parse_domains t (typed (join b'\n' ds)) ≡ ok ds
parse_domains_stable t value {ds} h =
    let (canonical, full_list) = parse_domains-IsCanonical t value h in
    parse_domains-canonical t ds canonical full_list
