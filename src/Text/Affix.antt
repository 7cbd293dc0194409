-- ===== src/Text/Affix.antt =====
-- What the Boolean tests on texts decide: equality, prefixes, suffixes and membership.
use free_net_hub.Prelude.{
  sym, ◌≡◌, ◌↔◌, ◌⊎◌, inl, inr, refl, ap, true, false, List, [], ◌∷◌, ◌++◌, arith, Bool-cases,
}
use free_net_hub.Text.{Text, eq_text, elem, starts_with, ends_with}

pub eq_text_refl : (a : Text) → eq_text a a ≡ true
unfolding eq_text
eq_text_refl [] = refl
eq_text_refl (x ∷ a) = ground (arith, eq_text_refl a)

pub eq_of_eq_text : (a b : Text) → eq_text a b ≡ true → a ≡ b
unfolding eq_text
eq_of_eq_text [] [] h = refl
eq_of_eq_text [] (y ∷ b) h = cc
eq_of_eq_text (x ∷ a) [] h = cc
eq_of_eq_text (x ∷ a) (y ∷ b) h = ground (arith, eq_of_eq_text a b)

pub eq_text_iff : (a b : Text) → (eq_text a b ≡ true) ↔ (a ≡ b)
eq_text_iff a b = (eq_of_eq_text a b, λ e. rw (← e) (eq_text_refl a))

-- `a` stands in the list.
abbrev pub In : Text → List Text → Type 0
In a [] = ⊥
In a (b ∷ rows) = (a ≡ b) ⊎ In a rows

-- No text stands twice in the list.
abbrev pub Distinct : List Text → Type 0
Distinct [] = Unit
Distinct (a ∷ rows) = (¬ In a rows) × Distinct rows

pub elem-In : (a : Text) (rows : List Text) → elem a rows ≡ true → In a rows
unfolding elem
elem-In a [] h = cc
elem-In a (b ∷ rows) h = elim (Bool-cases (eq_text a b)) [
  | inl same ↦ inl (eq_of_eq_text a b same)
  | inr other ↦ inr (elem-In a rows (rw other at h))
]

pub elem_of_In : (a : Text) (rows : List Text) → In a rows → elem a rows ≡ true
unfolding elem
elem_of_In a [] h = absurd h
elem_of_In a (b ∷ rows) (inl e) = ground (arith, eq_text_iff a b)
elem_of_In a (b ∷ rows) (inr i) = ground (arith, elem_of_In a rows i)

pub not_In_of_elem : (a : Text) (rows : List Text) → elem a rows ≡ false → ¬ In a rows
not_In_of_elem a rows h i = cc (elem_of_In a rows i)

pub ends_with-append : (a p : Text) → ends_with (a ++ p) p ≡ true
unfolding ends_with
ends_with-append [] [] = refl
ends_with-append [] (c ∷ p) = rw (eq_text_refl (c ∷ p))
ends_with-append (x ∷ a) p = ground (arith, ends_with-append a p)

-- A suffix comes with the text before it.
pub ends_with_split : (s p : Text) → ends_with s p ≡ true → (a : Text) × (s ≡ a ++ p)
unfolding ends_with
ends_with_split [] p h = ([], eq_of_eq_text [] p h)
ends_with_split (c ∷ s) p h = elim (Bool-cases (eq_text (c ∷ s) p)) [
  | inl same ↦ ([], eq_of_eq_text (c ∷ s) p same)
  | inr other ↦ let (a, e) = ends_with_split s p (rw other at h) in (c ∷ a, ap (λ r. c ∷ r) e)
]

pub starts_with-append : (a p : Text) → starts_with (p ++ a) p ≡ true
unfolding starts_with
starts_with-append a [] = refl
starts_with-append a (c ∷ p) = ground (arith, starts_with-append a p)

pub In-append_one : (a d : Text) (rows : List Text) → In a (rows ++ (d ∷ [])) → In a rows ⊎ (a ≡ d)
In-append_one a d [] (inl e) = inr e
In-append_one a d [] (inr i) = absurd i
In-append_one a d (r ∷ rows) (inl e) = inl (inl e)
In-append_one a d (r ∷ rows) (inr i) = elim (In-append_one a d rows i) [
  | inl j ↦ inl (inr j)
  | inr e ↦ inr e
]

pub Distinct-append_one :
    (rows : List Text) (d : Text) → Distinct rows → ¬ In d rows → Distinct (rows ++ (d ∷ []))
Distinct-append_one [] d h n = (λ i. i, tt)
Distinct-append_one (r ∷ rows) d h n = (
  λ i. elim (In-append_one r d rows i) [ inl j ↦ h.0 j | inr e ↦ n (inl (sym e)) ],
  Distinct-append_one rows d h.1 (λ i. n (inr i)),
)
