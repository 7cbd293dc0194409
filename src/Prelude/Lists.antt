-- ===== src/Prelude/Lists.antt =====
-- Lists measured by native numbers, with Boolean searches, under the library's names.
use Prim.Native.Nat.{ℕ, zero, suc, ◌+◌, ◌-◌, ◌≤◌, ◌<◌, min}
use mathlib.Core.Path.{◌≡◌, refl, ap}
use mathlib.Core.Bool.{Bool, true, false, ◌&&◌, ◌||◌}
use mathlib.Core.List.{List, [], ◌∷◌, ◌++◌}
use native.Mathlib.Omega.{arith}
use free_net_hub.Prelude.Tests.{and-eq_true, and_intro}

module _ {ℓ} {A : Type ℓ} where
  abbrev pub length : List A → ℕ
  length [] = 0
  length (x ∷ xs) = suc (length xs)

  abbrev pub take : ℕ → List A → List A
  take zero xs = []
  take (suc n) [] = []
  take (suc n) (x ∷ xs) = x ∷ take n xs

  abbrev pub drop : ℕ → List A → List A
  drop zero xs = xs
  drop (suc n) [] = []
  drop (suc n) (x ∷ xs) = drop n xs

  abbrev pub is_nil : List A → Bool
  is_nil [] = true
  is_nil (x ∷ xs) = false

  -- The last element, or the default of an empty list.
  abbrev pub get_last : A → List A → A
  get_last d [] = d
  get_last d (x ∷ xs) = get_last x xs

  abbrev pub any : (A → Bool) → List A → Bool
  any p [] = false
  any p (x ∷ xs) = p x || any p xs

  abbrev pub all : (A → Bool) → List A → Bool
  all p [] = true
  all p (x ∷ xs) = p x && all p xs

  abbrev pub All {κ} : (A → Type κ) → List A → Type κ
  All P [] = Unit
  All P (x ∷ xs) = P x × All P xs

  pub length-append : (xs ys : List A) → length (xs ++ ys) ≡ length xs + length ys
  length-append [] ys = omega arith
  length-append (x ∷ xs) ys = omega (arith, length-append xs ys)

module _ {ℓ} {A : Type ℓ} where
  pub take-append-drop : (n : ℕ) (xs : List A) → take n xs ++ drop n xs ≡ xs
  take-append-drop zero xs = refl
  take-append-drop (suc n) [] = refl
  take-append-drop (suc n) (x ∷ xs) = ap (λ r. x ∷ r) (take-append-drop n xs)

  pub length-take : (n : ℕ) (xs : List A) → length (take n xs) ≡ min n (length xs)
  length-take zero xs = omega arith
  length-take (suc n) [] = omega arith
  length-take (suc n) (x ∷ xs) = omega (arith, length-take n xs)

  pub length-drop : (n : ℕ) (xs : List A) → length (drop n xs) ≡ length xs - n
  length-drop zero xs = omega arith
  length-drop (suc n) [] = omega arith
  length-drop (suc n) (x ∷ xs) = omega (arith, length-drop n xs)

  pub all-append :
      (p : A → Bool) (xs ys : List A) → all p xs ≡ true → all p ys ≡ true → all p (xs ++ ys) ≡ true
  all-append p [] ys h k = k
  all-append p (x ∷ xs) ys h k =
      let (hx, hs) = and-eq_true (p x) (all p xs) h in
      and_intro (p x) (all p (xs ++ ys)) hx (all-append p xs ys hs k)

  pub All-append {κ} : (P : A → Type κ) (xs ys : List A) → All P xs → All P ys → All P (xs ++ ys)
  All-append P [] ys hx hy = hy
  All-append P (x ∷ xs) ys hx hy = (hx.0, All-append P xs ys hx.1 hy)

  pub take_all : (n : ℕ) (xs : List A) → length xs ≤ n → take n xs ≡ xs
  take_all zero [] h = refl
  take_all zero (x ∷ xs) h = absurd (omega arith)
  take_all (suc n) [] h = refl
  take_all (suc n) (x ∷ xs) h = ap (λ r. x ∷ r) (take_all n xs (omega arith))

-- Parts of a list that is put together of two.
module _ {ℓ} {A : Type ℓ} where
  pub take-append_short :
      (n : ℕ) (xs ys : List A) → length xs ≤ n → take n (xs ++ ys) ≡ xs ++ take (n - length xs) ys
  take-append_short n [] ys h = let e : n - 0 ≡ n = omega arith in rw e refl
  take-append_short zero (x ∷ xs) ys h = absurd (omega arith)
  take-append_short (suc n) (x ∷ xs) ys h =
      let e : suc n - suc (length xs) ≡ n - length xs = omega arith in
      rw e (ap (λ r. x ∷ r) (take-append_short n xs ys (omega arith)))

  pub drop-append_short :
      (n : ℕ) (xs ys : List A) → length xs ≤ n → drop n (xs ++ ys) ≡ drop (n - length xs) ys
  drop-append_short n [] ys h = let e : n - 0 ≡ n = omega arith in simp (e) refl
  drop-append_short zero (x ∷ xs) ys h = absurd (omega arith)
  drop-append_short (suc n) (x ∷ xs) ys h =
      let e : suc n - suc (length xs) ≡ n - length xs = omega arith in
      rw e (drop-append_short n xs ys (omega arith))

  pub take-append_long : (n : ℕ) (xs ys : List A) → n ≤ length xs → take n (xs ++ ys) ≡ take n xs
  take-append_long zero xs ys h = refl
  take-append_long (suc n) [] ys h = absurd (omega arith)
  take-append_long (suc n) (x ∷ xs) ys h = ap (λ r. x ∷ r) (take-append_long n xs ys (omega arith))

  pub drop-append_long :
      (n : ℕ) (xs ys : List A) → n ≤ length xs → drop n (xs ++ ys) ≡ drop n xs ++ ys
  drop-append_long zero xs ys h = refl
  drop-append_long (suc n) [] ys h = absurd (omega arith)
  drop-append_long (suc n) (x ∷ xs) ys h = drop-append_long n xs ys (omega arith)

  pub drop_filled : (n : ℕ) (xs : List A) → n < length xs → is_nil (drop n xs) ≡ false
  drop_filled zero [] h = absurd (omega arith)
  drop_filled zero (x ∷ xs) h = refl
  drop_filled (suc n) [] h = absurd (omega arith)
  drop_filled (suc n) (x ∷ xs) h = drop_filled n xs (omega arith)
