-- ===== src/NodeHub/Merge/Marks.antt =====
-- What `merge` of app/nodehub.py keeps of a stored node that is read again.
use free_net_hub.Prelude.{
  ℕ, ◌≡◌, refl, ◌∙◌, ap, inl, inr, true, false, Bool-cases, List, [], ◌∷◌, take, if◌then◌else◌, ok,
  Ensures, Ensures-ok, Ensures-err, Ensures-any, Ensures-bind, Ensures-if, Ensures-self,
}
use free_net_hub.Text.{Text, text, eq_text, elem}
use free_net_hub.Text.Affix.{eq_text_refl, eq_of_eq_text}
use free_net_hub.Json.{
  str, bool, Dict, Python, Key, named, scalar, to_key, get, has_key, truthy, to_str, to_int,
  to_list, or_else,
}
use free_net_hub.Json.Keys.{dict_laws, get_or-has_key, AgreesOff, AgreesOff-refl, AgreesOff-set}
use free_net_hub.NodeHub.Values.{need}
use free_net_hub.NodeHub.Merge.{
  Rows, eq_key, find, put, keep_old, keep_last, keep_marks, keep_tests, merge_one,
}

-- The keys that a person's marks and the tests stand under.
abbrev pub mark_keys : List Text
mark_keys = text "favorite" ∷ text "pinned" ∷ text "rating" ∷ text "tags" ∷ text "note" ∷ []

-- The marks of `x`, which `old` has if they are there.
pub record IsMarked (p : Python) (old n x : Dict) : Type 0 where
  pub favorite :
      has_key (text "favorite") old ≡ true
      → get (text "favorite") x ≡ bool (truthy p (get (text "favorite") old))
  pub pinned :
      has_key (text "pinned") old ≡ true
      → get (text "pinned") x ≡ bool (truthy p (get (text "pinned") old))
  pub note :
      has_key (text "note") old ≡ true
      → get (text "note") x ≡ str (take 500 (to_str p (or_else p (get (text "note") old) (str []))))
  pub others : AgreesOff mark_keys n x

pub keep_marks-IsMarked :
    (p : Python) (old n : Dict) → Ensures (IsMarked p old n) (keep_marks p old n)
unfolding keep_marks eq_text elem
keep_marks-IsMarked p old n = Ensures-any (to_int p _) _ (λ rating.
    Ensures-any (to_list _) _ (λ tags. Ensures-ok _ record {
      favorite = λ h.
          simp dict_laws (ap (λ v. bool (truthy p v)) (get_or-has_key (text "favorite") _ old h));
      pinned = λ h.
          simp dict_laws (ap (λ v. bool (truthy p v)) (get_or-has_key (text "pinned") _ old h));
      note = λ h. simp dict_laws (
          ap (λ v. str (take 500 (to_str p (or_else p v (str [])))))
            (get_or-has_key (text "note") _ old h));
      others = AgreesOff-set mark_keys n _ (text "note") _ refl (
          AgreesOff-set mark_keys n _ (text "tags") _ refl (
            AgreesOff-set mark_keys n _ (text "rating") _ refl (
              AgreesOff-set mark_keys n _ (text "pinned") _ refl (
                AgreesOff-set mark_keys n n (text "favorite") _ refl
                  (AgreesOff-refl mark_keys n)))));
    }))

abbrev pub test_keys : List Text
test_keys =
    text "last_test"
    ∷ text "endpoint_test"
    ∷ text "history"
    ∷ text "performance_test"
    ∷ text "performance_history"
    ∷ []

keep_old-AgreesOff :
    (p : Python) (k : Text) (old n x : Dict)
    → elem k test_keys ≡ true
    → AgreesOff test_keys n x
    → AgreesOff test_keys n (keep_old p k old x)
keep_old-AgreesOff p k old n x known h = elim (Bool-cases (truthy p (get k old))) [
  | inl kept ↦ rw kept (AgreesOff-set test_keys n x k (get k old) known h)
  | inr left ↦ rw left h
]

keep_last-AgreesOff :
    (p : Python) (m : ℕ) (k : Text) (old n x : Dict)
    → elem k test_keys ≡ true
    → AgreesOff test_keys n x
    → Ensures (AgreesOff test_keys n) (keep_last p m k old x)
keep_last-AgreesOff p m k old n x known h =
    Ensures-if (truthy p (get k old)) _ _
      (Ensures-any (to_list (get k old)) _
        (λ xs. Ensures-ok _ (AgreesOff-set test_keys n x k _ known h)))
      (Ensures-ok x h)

pub keep_tests-AgreesOff :
    (p : Python) (old x : Dict) → Ensures (AgreesOff test_keys x) (keep_tests p old x)
unfolding keep_tests elem
keep_tests-AgreesOff p old x =
    let start = AgreesOff-refl test_keys x in
    let last = keep_old-AgreesOff p (text "last_test") old x x refl start in
    Ensures-bind _ _
      (keep_last-AgreesOff p 20 (text "history") old x _ refl
        (keep_old-AgreesOff p (text "endpoint_test") old x _ refl last))
      (λ past h.
        keep_last-AgreesOff p 12 (text "performance_history") old x _ refl
          (keep_old-AgreesOff p (text "performance_test") old x past refl h))

-- What becomes of one node: the marks of the stored one, and all else but the tests as it was read.
pub record IsMerged (p : Python) (old n x : Dict) : Type 0 where
  pub favorite :
      has_key (text "favorite") old ≡ true
      → get (text "favorite") x ≡ bool (truthy p (get (text "favorite") old))
  pub pinned :
      has_key (text "pinned") old ≡ true
      → get (text "pinned") x ≡ bool (truthy p (get (text "pinned") old))
  pub note :
      has_key (text "note") old ≡ true
      → get (text "note") x ≡ str (take 500 (to_str p (or_else p (get (text "note") old) (str []))))
  pub others : (k : Text) → elem k mark_keys ≡ false → elem k test_keys ≡ false → get k x ≡ get k n

pub merged-IsMerged :
    (p : Python) (old n marked x : Dict)
    → IsMarked p old n marked
    → AgreesOff test_keys marked x
    → IsMerged p old n x
unfolding elem
merged-IsMerged p old n marked x m t = record {
  favorite = λ h. t.at (text "favorite") refl ∙ m.favorite h;
  pinned = λ h. t.at (text "pinned") refl ∙ m.pinned h;
  note = λ h. t.at (text "note") refl ∙ m.note h;
  others = λ k a b. t.at k b ∙ m.others.at k a;
}

eq_key_refl : (k : Key) → eq_key k k ≡ true
unfolding eq_key
eq_key_refl (named a) = eq_text_refl a
eq_key_refl (scalar a) = eq_text_refl a

eq_of_eq_key : (a b : Key) → eq_key a b ≡ true → a ≡ b
unfolding eq_key
eq_of_eq_key (named a) (named b) h = ap (λ t. named t) (eq_of_eq_text a b h)
eq_of_eq_key (named a) (scalar b) h = cc
eq_of_eq_key (scalar a) (named b) h = cc
eq_of_eq_key (scalar a) (scalar b) h = ap (λ t. scalar t) (eq_of_eq_text a b h)

-- Two rows of different keys: the one that is looked for.
eq_key_other : (i k j : Key) → eq_key i k ≡ false → eq_key k j ≡ true → eq_key i j ≡ false
eq_key_other i k j h e = rw (eq_of_eq_key k j e) at h

pub find-put :
    (k j : Key) (d : Dict) (rows : Rows)
    → find j (put k d rows) ≡ (if eq_key k j then d else find j rows)
unfolding find put
find-put k j d [] = refl
find-put k j d ((i, e) ∷ rows) = elim (Bool-cases (eq_key i k)) [
  | inl same ↦
      let alike : i ≡ k = eq_of_eq_key i k same in
      rw (same, alike) (elim (Bool-cases (eq_key k j)) [ inl a ↦ rw a refl | inr a ↦ rw a refl ])
  | inr other ↦
      rw (other, find-put k j d rows)
        (elim (Bool-cases (eq_key k j)) [
          | inl a ↦ rw (a, eq_key_other i k j other a) refl
          | inr a ↦ rw a refl
        ])
]

-- What one turn of the loop does to the rows.
pub record IsStep (p : Python) (n : Dict) (rows more : Rows) : Type 0 where
  pub key : Key
  pub id_key : to_key p (get (text "id") n) ≡ ok key
  pub merged : IsMerged p (find key rows) n (find key more)
  pub frame : (j : Key) → eq_key key j ≡ false → find j more ≡ find j rows

pub need-get : (k : Text) (d : Dict) → Ensures (λ v. v ≡ get k d) (need k d)
unfolding need
need-get k d = Ensures-if _ _ _ (Ensures-ok _ refl) (Ensures-err _)

put-IsStep :
    (p : Python) (n x : Dict) (rows : Rows) (key : Key)
    → to_key p (get (text "id") n) ≡ ok key
    → IsMerged p (find key rows) n x
    → IsStep p n rows (put key x rows)
put-IsStep p n x rows key e m = record {
  key = key;
  id_key = e;
  merged = rw (find-put key key x rows, eq_key_refl key) m;
  frame = λ j other. rw (find-put key j x rows, other) refl;
}

made-IsStep : (p : Python) (n : Dict) (rows : Rows) → Ensures (IsStep p n rows) (merge_one p n rows)
unfolding merge_one
made-IsStep p n rows = Ensures-bind _ _ (need-get (text "id") n) (λ id same.
    Ensures-bind _ _ (Ensures-self (to_key p id)) (λ key e.
      let e' : to_key p (get (text "id") n) ≡ ok key = rw (← same) e in
      Ensures-bind _ _ (keep_marks-IsMarked p (find key rows) n) (λ marked m.
        Ensures-bind _ _ (keep_tests-AgreesOff p (find key rows) marked) (λ x t.
          Ensures-ok _
            (put-IsStep p n x rows key e' (merged-IsMerged p (find key rows) n marked x m t))))))

-- Where `merge` takes one node in: the stored node of the same id keeps what a person said of it
-- (favourite, pinned, note), whatever the new one says; every key besides the marks and the tests is
-- as it was read; and the nodes of other ids stay as they are.
pub merge_one-IsStep :
    (p : Python) (n : Dict) (rows more : Rows) → merge_one p n rows ≡ ok more → IsStep p n rows more
merge_one-IsStep p n rows more = (made-IsStep p n rows).at more
