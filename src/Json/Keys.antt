-- ===== src/Json/Keys.antt =====
-- The laws of a `dict`.
use free_net_hub.Prelude.{
  ◌≡◌, ◌∙◌, refl, Bool, true, false, ◌&&◌, and-eq_true, and_intro, List, [], ◌∷◌, Bool-cases, inl,
  inr, arith, if◌then◌else◌,
}
use free_net_hub.Text.{Text, eq_text, elem}
use free_net_hub.Text.Affix.{eq_of_eq_text}
use free_net_hub.Json.{Json, null, Dict, end, field, get_or, get, has_key, set}

eq_text_sym : (a b : Text) → eq_text a b ≡ eq_text b a
unfolding eq_text
eq_text_sym [] [] = refl
eq_text_sym [] (y ∷ b) = refl
eq_text_sym (x ∷ a) [] = refl
eq_text_sym (x ∷ a) (y ∷ b) = ground (arith, eq_text_sym a b)

-- Two texts that equal a third compare alike.
eq_text_trans : (i k j : Text) → eq_text i k ≡ true → eq_text i j ≡ eq_text k j
eq_text_trans i k j h = rw (eq_of_eq_text i k h) refl

eq_text_other : (i k j : Text) → eq_text i k ≡ false → eq_text k j ≡ true → eq_text i j ≡ false
eq_text_other i k j h e = rw (eq_of_eq_text k j e) at h

pub get_or-set :
    (k j : Text) (v w : Json) (d : Dict)
    → get_or w j (set k v d) ≡ (if eq_text k j then v else get_or w j d)
unfolding get_or set
get_or-set k j v w end = refl
get_or-set k j v w (field i x d) = elim (Bool-cases (eq_text i k)) [
  | inl same ↦
      rw (same, eq_text_trans i k j same)
        (elim (Bool-cases (eq_text k j)) [ inl e ↦ rw e refl | inr e ↦ rw e refl ])
  | inr other ↦
      rw (other, get_or-set k j v w d)
        (elim (Bool-cases (eq_text k j)) [
          | inl e ↦ rw (e, eq_text_other i k j other e) refl
          | inr e ↦ rw e refl
        ])
]

pub get-set :
    (k j : Text) (v : Json) (d : Dict) → get j (set k v d) ≡ (if eq_text k j then v else get j d)
unfolding get
get-set k j v d = get_or-set k j v null d

pub ruleset dict_laws = (get_or-set, get-set)

-- Every key of the `dict` passes the test.
abbrev pub only : (Text → Bool) → Dict → Bool
only p end = true
only p (field k v d) = p k && only p d

pub only-set :
    (p : Text → Bool) (k : Text) (v : Json) (d : Dict)
    → only p d ≡ true
    → p k ≡ true
    → only p (set k v d) ≡ true
unfolding set
only-set p k v end h e = rw e refl
only-set p k v (field j w d) h e = elim (Bool-cases (eq_text j k)) [
  | inl same ↦ rw same h
  | inr other ↦ rw other (
      let (a, b) = and-eq_true (p j) (only p d) h in
      and_intro (p j) (only p (set k v d)) a (only-set p k v d b e))
]

pub get-set_other :
    (k j : Text) (v : Json) (d : Dict) → eq_text k j ≡ false → get j (set k v d) ≡ get j d
get-set_other k j v d h = rw (get-set k j v d, h) refl

-- A key that is there needs no default.
pub get_or-has_key : (k : Text) (v : Json) (d : Dict) → has_key k d ≡ true → get_or v k d ≡ get k d
unfolding get get_or has_key
get_or-has_key k v end h = cc
get_or-has_key k v (field j w d) h = elim (Bool-cases (eq_text j k)) [
  | inl same ↦ rw same refl
  | inr other ↦ rw other (get_or-has_key k v d (rw other at h))
]

-- Two dicts agree but for the listed keys.
pub record AgreesOff (keys : List Text) (old new : Dict) : Type 0 where
  pub at : (k : Text) → elem k keys ≡ false → get k new ≡ get k old

pub AgreesOff-refl : (keys : List Text) (d : Dict) → AgreesOff keys d d
AgreesOff-refl keys d = record { at = λ k h. refl }

pub AgreesOff-set :
    (keys : List Text) (old d : Dict) (j : Text) (v : Json)
    → elem j keys ≡ true
    → AgreesOff keys old d
    → AgreesOff keys old (set j v d)
AgreesOff-set keys old d j v known h = record {
  at = λ k free. elim (Bool-cases (eq_text j k)) [
    | inl same ↦ let bad : elem k keys ≡ true = rw (← eq_of_eq_text j k same) known in cc
    | inr other ↦ get-set_other j k v d other ∙ h.at k free
  ];
}

pub AgreesOff-trans :
    (keys : List Text) (a b c : Dict) → AgreesOff keys a b → AgreesOff keys b c → AgreesOff keys a c
AgreesOff-trans keys a b c x y = record { at = λ k h. y.at k h ∙ x.at k h }
