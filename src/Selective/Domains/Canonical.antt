-- ===== src/Selective/Domains/Canonical.antt =====
-- The lists that `parse_domains` returns.
use free_net_hub.Prelude.{
  ◌≤◌, ◌≡◌, ◌≢◌, inl, inr, ◌++◌, false, List, [], ◌∷◌, arith, ltb, all, All, length, All-append, ok,
  >>=-eq-ok, raise_if, raise_if-eq-ok, Untyped, typed, ill_typed, Bool-cases, is_nil,
}
use free_net_hub.Text.{Text, Tables, text, elem, starts_with, split_runs, strip}
use free_net_hub.Text.Affix.{Distinct-append_one, Distinct, not_In_of_elem}
use free_net_hub.Hosts.{labels, has_local_suffix, is_numeric, is_public_suffix}
use free_net_hub.Hosts.Fixed.{IsShaped, shape_ok-IsShaped, IsShaped-shape_ok}
use free_net_hub.Selective.Domains.{screen, admit, append_new, collect, parse_domains, is_separator}

-- A DNS name of two to twelve labels that is neither local, nor an address, nor a public suffix.
pub record IsAdmissible (domain : Text) : Type 0 where
  pub shaped : IsShaped domain
  pub not_local : has_local_suffix domain ≡ false
  pub not_localhost : starts_with domain (text "localhost.") ≡ false
  pub not_ip : all is_numeric (labels domain) ≡ false
  pub not_public : is_public_suffix (labels domain) ≡ false

pub screen-eq-ok :
    (raw domain : Text) {d : Text} → screen raw domain ≡ ok d → (d ≡ domain) × IsAdmissible domain
screen-eq-ok raw domain h = (
  unfold screen in ground arith,
  record {
    shaped = shape_ok-IsShaped domain (unfold screen in ground arith);
    not_local = unfold screen in ground arith;
    not_localhost = unfold screen in ground arith;
    not_ip = unfold screen in ground arith;
    not_public = unfold screen in ground arith;
  },
)

pub screen-admissible : (raw domain : Text) → IsAdmissible domain → screen raw domain ≡ ok domain
unfolding screen
screen-admissible raw domain h =
    rw (IsShaped-shape_ok domain h.shaped, h.not_local, h.not_localhost, h.not_ip, h.not_public)

pub admit-IsAdmissible : (t : Tables) (raw : Text) {d : Text} → admit t raw ≡ ok d → IsAdmissible d
unfolding admit
admit-IsAdmissible t raw h =
    let (domain, _, screened) = >>=-eq-ok _ (screen raw) h in
    let (same, admissible) = screen-eq-ok raw domain screened in rw same admissible

-- What the loop keeps of the domains that it has found.
pub record IsCanonical (rows : List Text) : Type 0 where
  pub admissible : All IsAdmissible rows
  pub distinct : Distinct rows
  pub bounded : length rows ≤ 64

pub empty-IsCanonical : IsCanonical []
empty-IsCanonical = record { admissible = tt; distinct = tt; bounded = omega arith }

append_new-IsCanonical :
    (rows : List Text) (d : Text)
    → IsCanonical rows
    → IsAdmissible d
    → ltb 64 (length (append_new rows d)) ≡ false
    → IsCanonical (append_new rows d)
unfolding append_new
append_new-IsCanonical rows d h a short = elim (Bool-cases (elem d rows)) [
  | inl old ↦ rw old h
  | inr new ↦ rw new (record {
    admissible = All-append IsAdmissible rows (d ∷ []) h.admissible (a, tt);
    distinct = Distinct-append_one rows d h.distinct (not_In_of_elem d rows new);
    bounded =
        let fits : ltb 64 (length (rows ++ (d ∷ []))) ≡ false = rw new at short in ground arith;
  })
]

collect-IsCanonical :
    (t : Tables) (rows parts : List Text) {ds : List Text}
    → IsCanonical rows
    → collect t rows parts ≡ ok ds
    → IsCanonical ds
unfolding collect
collect-IsCanonical t rows [] {ds} h e = let same : rows ≡ ds = cc in rw (← same) h
collect-IsCanonical t rows ([] ∷ parts) h e = collect-IsCanonical t rows parts h e
collect-IsCanonical t rows ((c ∷ raw) ∷ parts) h e =
    let (d, admitted, e') = >>=-eq-ok (admit t (c ∷ raw)) _ e in
    let (_, short, e'') = >>=-eq-ok (raise_if (ltb 64 (length (append_new rows d))) _) _ e' in
    collect-IsCanonical t (append_new rows d) parts
      (append_new-IsCanonical rows d h (admit-IsAdmissible t (c ∷ raw) admitted)
        (raise_if-eq-ok _ _ short))
      e''

-- A returned list is not empty and has at most 64 entries, all distinct, and each is a DNS name of
-- two to twelve labels that is no local name, no address and no public suffix.
pub parse_domains-IsCanonical :
    (t : Tables) (value : Untyped Text) {ds : List Text}
    → parse_domains t value ≡ ok ds
    → IsCanonical ds × (ds ≢ [])
unfolding parse_domains
parse_domains-IsCanonical t ill_typed h = cc
parse_domains-IsCanonical t (typed value) {ds} h =
    let (rows, found, h') = >>=-eq-ok (collect t [] _) _ h in
    let (_, some_left, h'') = >>=-eq-ok (raise_if (is_nil rows) _) _ h' in
    let same : rows ≡ ds = cc in
    let full : is_nil rows ≡ false = raise_if-eq-ok _ _ some_left in
    (
      rw (← same) (
          collect-IsCanonical t [] (split_runs is_separator (strip value)) empty-IsCanonical found),
      λ e. cc (same, full, e),
    )
