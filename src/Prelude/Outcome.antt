-- ===== src/Prelude/Outcome.antt =====
-- Pure Python code that may raise, and an argument whose Python type the code has to test.
use mathlib.Core.Path.{◌≡◌, refl, subst}
use free_net_hub.Prelude.Tests.{if◌then◌else◌}
use mathlib.Core.Bool.{Bool, true, false}

pub data Result (E A : Type 0) : Type 0 where
  ok : A → Result E A
  err : E → Result E A

infixl 5 ◌>>=◌ ◌>>◌
abbrev pub ◌>>=◌ : {E A B : Type 0} → Result E A → (A → Result E B) → Result E B
err e >>= f = err e
ok a >>= f = f a

abbrev pub ◌>>◌ : {E A B : Type 0} → Result E A → Result E B → Result E B
m >> k = m >>= λ _. k

-- `if test: raise e`
abbrev pub raise_if : {E : Type 0} → Bool → E → Result E (Unit {0})
raise_if true e = err e
raise_if false e = ok tt

module _ {E A B : Type 0} where
  -- What a chain that ends well went through.
  pub >>=-eq-ok :
      (first : Result E A) (next : A → Result E B) {last : B}
      → (first >>= next) ≡ ok last
      → (value : A) × (first ≡ ok value) × (next value ≡ ok last)
  >>=-eq-ok (err raised) next chain = cc
  >>=-eq-ok (ok value) next chain = (value, refl, chain)

pub raise_if-eq-ok : {E : Type 0} (b : Bool) (e : E) {u : Unit} → raise_if b e ≡ ok u → b ≡ false
raise_if-eq-ok true e h = cc
raise_if-eq-ok false e h = refl

-- A value that `isinstance` finds to be of the wanted type, or not.
pub data Untyped (A : Type 0) : Type 0 where
  typed : A → Untyped A
  ill_typed : Untyped A

-- Where it does not raise, the result has the property.
pub record Ensures {E A : Type 0} (Q : A → Type 0) (r : Result E A) : Type 0 where
  pub at : (a : A) → r ≡ ok a → Q a

module _ {E A : Type 0} {Q : A → Type 0} where
  pub Ensures-ok : (a : A) → Q a → Ensures {E = E} Q (ok a)
  Ensures-ok a q = record { at = λ b e. let same : a ≡ b = cc in subst Q same q }

  pub Ensures-err : (e : E) → Ensures Q (err e)
  Ensures-err e = record { at = λ a h. cc }

  pub Ensures-if :
      (b : Bool) (m n : Result E A) → Ensures Q m → Ensures Q n → Ensures Q (if b then m else n)
  Ensures-if true m n x y = x
  Ensures-if false m n x y = y

module _ {E A B : Type 0} {Q : B → Type 0} where
  pub Ensures-bind :
      {P : A → Type 0} (m : Result E A) (f : A → Result E B)
      → Ensures P m
      → ((a : A) → P a → Ensures Q (f a))
      → Ensures Q (m >>= f)
  Ensures-bind (err e) f h k = Ensures-err e
  Ensures-bind (ok a) f h k = k a (h.at a refl)

  pub Ensures-any :
      (m : Result E A) (f : A → Result E B) → ((a : A) → Ensures Q (f a)) → Ensures Q (m >>= f)
  Ensures-any (err e) f k = Ensures-err e
  Ensures-any (ok a) f k = k a

pub Ensures-weaken :
    {E A : Type 0} {P Q : A → Type 0} (r : Result E A)
    → ((a : A) → P a → Q a)
    → Ensures P r
    → Ensures Q r
Ensures-weaken r f h = record { at = λ a e. f a (h.at a e) }

pub Ensures-self : {E A : Type 0} (r : Result E A) → Ensures (λ a. r ≡ ok a) r
Ensures-self r = record { at = λ a e. e }

module _ {E B : Type 0} {Q : B → Type 0} where
  -- Behind a guard its test is false.
  pub Ensures-guard :
      (b : Bool) (e : E) (m : Result E B)
      → (b ≡ false → Ensures Q m)
      → Ensures Q (raise_if b e >> m)
  Ensures-guard true e m k = Ensures-err e
  Ensures-guard false e m k = k refl
