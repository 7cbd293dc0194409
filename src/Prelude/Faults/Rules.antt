-- ===== src/Prelude/Faults/Rules.antt =====
-- One rule of reasoning for each way to build a program over an `Env`.
use mathlib.Core.Path.{◌≡◌, refl}
use mathlib.Core.Bool.{Bool, true, false}
use mathlib.Core.List.{List, [], ◌∷◌}
use free_net_hub.Prelude.Tests.{if◌then◌else◌}
use free_net_hub.Prelude.Outcome.{Result, ok, err}
use free_net_hub.Prelude.Exec.{Exec, pure, raise, continue, ◌>>=◌, except, caught, raise_when}
use free_net_hub.Prelude.Faults.{
  Env, attempt, assign, query, look, Calm, OneFault, Before, After, Always, Ends, Triple,
}

pub calm_one : (fs : List Bool) → Calm fs → OneFault fs
calm_one [] h = tt
calm_one (true ∷ fs) h = h.1
calm_one (false ∷ fs) h = calm_one fs h.1

module _ {S E A B : Type 0} where
  Triple-continue :
      {Q : A → S → Type 0} {Q' : B → S → Type 0} {R : E → S → Type 0} (r : Result E A) (s : S)
      (f : A → Exec S E B)
      → Ends Q R (r, s)
      → ((a : A) → Triple (Q a) (f a) Q' R)
      → Ends Q' R (continue r f s)
  Triple-continue (ok a) s f h k = (k a).at s h
  Triple-continue (err e) s f h k = h

  pub Triple-bind :
      {P : S → Type 0} {Q : A → S → Type 0} {Q' : B → S → Type 0} {R : E → S → Type 0}
      (m : Exec S E A) (f : A → Exec S E B)
      → Triple P m Q R
      → ((a : A) → Triple (Q a) (f a) Q' R)
      → Triple P (m >>= f) Q' R
  unfolding ◌>>=◌
  Triple-bind m f h k = record {
    at = λ s p. let (r, s') = m s in Triple-continue r s' f (h.at s p) k;
  }

module _ {S E A : Type 0} where
  pub Triple-pure :
      {P : S → Type 0} {Q : A → S → Type 0} {R : E → S → Type 0} (a : A)
      → ((s : S) → P s → Q a s)
      → Triple P (pure {E = E} a) Q R
  unfolding pure
  Triple-pure a h = record { at = h }

  pub Triple-raise :
      {P : S → Type 0} {Q : A → S → Type 0} {R : E → S → Type 0} (e : E)
      → ((s : S) → P s → R e s)
      → Triple P (raise {A = A} e) Q R
  unfolding raise
  Triple-raise e h = record { at = h }

  Ends-mono :
      {Q Q' : A → S → Type 0} {R R' : E → S → Type 0} (r : Result E A) (s : S)
      → ((a : A) (s : S) → Q a s → Q' a s)
      → ((e : E) (s : S) → R e s → R' e s)
      → Ends Q R (r, s)
      → Ends Q' R' (r, s)
  Ends-mono (ok a) s f g h = f a s h
  Ends-mono (err e) s f g h = g e s h

  -- Weaken what is known at the start and at either end.
  pub Triple-mono :
      {P P' : S → Type 0} {Q Q' : A → S → Type 0} {R R' : E → S → Type 0} (m : Exec S E A)
      → ((s : S) → P' s → P s)
      → ((a : A) (s : S) → Q a s → Q' a s)
      → ((e : E) (s : S) → R e s → R' e s)
      → Triple P m Q R
      → Triple P' m Q' R'
  Triple-mono m p f g h = record {
    at = λ s p'. let (r, s') = m s in Ends-mono r s' f g (h.at s (p s p'));
  }

  Ends-caught :
      {Q : A → S → Type 0} {R R' : E → S → Type 0} (r : Result E A) (s : S)
      (handler : E → Exec S E A)
      → Ends Q R (r, s)
      → ((e : E) → Triple (R e) (handler e) Q R')
      → Ends Q R' (caught handler (r, s))
  Ends-caught (ok a) s handler h k = h
  Ends-caught (err e) s handler h k = (k e).at s h

  pub Triple-except :
      {P : S → Type 0} {Q : A → S → Type 0} {R R' : E → S → Type 0} (m : Exec S E A)
      (handler : E → Exec S E A)
      → Triple P m Q R
      → ((e : E) → Triple (R e) (handler e) Q R')
      → Triple P (except m handler) Q R'
  unfolding except
  Triple-except m handler h k = record {
    at = λ s p. let (r, s') = m s in Ends-caught r s' handler (h.at s p) k;
  }

  pub Triple-if :
      {P : S → Type 0} {Q : A → S → Type 0} {R : E → S → Type 0} (b : Bool) (m n : Exec S E A)
      → (b ≡ true → Triple P m Q R)
      → (b ≡ false → Triple P n Q R)
      → Triple P (if b then m else n) Q R
  Triple-if true m n h k = h refl
  Triple-if false m n h k = k refl

module _ {S E : Type 0} where
  pub Triple-raise_when :
      {P : S → Type 0} {Q : S → Type 0} {R : E → S → Type 0} (b : Bool) (e : E)
      → ((s : S) → b ≡ false → P s → Q s)
      → ((s : S) → b ≡ true → P s → R e s)
      → Triple P (raise_when b e) (λ _. Q) R
  unfolding raise_when
  Triple-raise_when true e h k = record { at = λ s p. k s refl p }
  Triple-raise_when false e h k = record { at = λ s p. h s refl p }

module _ {S E : Type 0} (P Q : S → Type 0) where
  attempt_at-Before :
      (fs : List Bool) (f : S → S) (e : E) (s : S) (R : E → Env S → Type 0)
      → ((s : S) → P s → Q (f s))
      → P s
      → OneFault fs
      → ((env : Env S) → After P env → R e env)
      → Ends (λ _. Before Q) R (attempt f e (record { faults = fs; now = s }))
  unfolding attempt
  attempt_at-Before [] f e s R h p o k = record { holds = h s p; faulty = tt }
  attempt_at-Before (true ∷ fs) f e s R h p o k = k _ (record { holds = p; calm = o })
  attempt_at-Before (false ∷ fs) f e s R h p o k = record { holds = h s p; faulty = o }

  attempt_at-After :
      (fs : List Bool) (f : S → S) (e : E) (s : S) (R : E → Env S → Type 0)
      → ((s : S) → P s → Q (f s))
      → P s
      → Calm fs
      → Ends (λ _. After Q) R (attempt f e (record { faults = fs; now = s }))
  unfolding attempt
  attempt_at-After [] f e s R h p o = record { holds = h s p; calm = tt }
  attempt_at-After (true ∷ fs) f e s R h p o = cc
  attempt_at-After (false ∷ fs) f e s R h p o = record { holds = h s p; calm = o.1 }

  attempt_at-Always :
      (fs : List Bool) (f : S → S) (e : E) (s : S) (R : E → Env S → Type 0)
      → ((s : S) → P s → Q (f s))
      → P s
      → ((env : Env S) → Always P env → R e env)
      → Ends (λ _. Always Q) R (attempt f e (record { faults = fs; now = s }))
  unfolding attempt
  attempt_at-Always [] f e s R h p k = record { holds = h s p }
  attempt_at-Always (true ∷ fs) f e s R h p k = k _ (record { holds = p })
  attempt_at-Always (false ∷ fs) f e s R h p k = record { holds = h s p }

module _ {S E : Type 0} {P Q : S → Type 0} where
  pub assign-Before :
      (f : S → S) {R : E → Env S → Type 0}
      → ((s : S) → P s → Q (f s))
      → Triple (Before P) (assign f) (λ _. Before Q) R
  unfolding assign
  assign-Before f h = record {
    at = λ env p. record { holds = h env.now p.holds; faulty = p.faulty };
  }

  -- Under one fault at most, a command that fails leaves a world where no other will.
  pub attempt-Before :
      (f : S → S) (e : E)
      → ((s : S) → P s → Q (f s))
      → Triple (Before P) (attempt f e) (λ _. Before Q) (λ _. After P)
  attempt-Before f e h = record {
    at = λ env p.
        attempt_at-Before P Q env.faults f e env.now (λ _. After P) h p.holds p.faulty (λ env r. r);
  }

  -- With no fault to come the command succeeds.
  pub attempt-After :
      (f : S → S) (e : E) {R : E → Env S → Type 0}
      → ((s : S) → P s → Q (f s))
      → Triple (After P) (attempt f e) (λ _. After Q) R
  attempt-After f e {R} h = record {
    at = λ env p. attempt_at-After P Q env.faults f e env.now R h p.holds p.calm;
  }

  -- Under any faults, a command that fails leaves the world as it was.
  pub attempt-Always :
      (f : S → S) (e : E)
      → ((s : S) → P s → Q (f s))
      → Triple (Always P) (attempt f e) (λ _. Always Q) (λ _. Always P)
  attempt-Always f e h = record {
    at = λ env p.
        attempt_at-Always P Q env.faults f e env.now (λ _. Always P) h p.holds (λ env r. r);
  }

module _ {S E A : Type 0} (P : S → Type 0) where
  query_at-Before :
      (fs : List Bool) (g : S → A) (e : E) (s : S) (R : E → Env S → Type 0)
      → P s
      → OneFault fs
      → ((env : Env S) → After P env → R e env)
      → Ends (λ a. Before (λ s. P s × (a ≡ g s))) R (query g e (record { faults = fs; now = s }))
  unfolding query
  query_at-Before [] g e s R p o k = record { holds = (p, refl); faulty = tt }
  query_at-Before (true ∷ fs) g e s R p o k = k _ (record { holds = p; calm = o })
  query_at-Before (false ∷ fs) g e s R p o k = record { holds = (p, refl); faulty = o }

  query_at-After :
      (fs : List Bool) (g : S → A) (e : E) (s : S) (R : E → Env S → Type 0)
      → P s
      → Calm fs
      → Ends (λ a. After (λ s. P s × (a ≡ g s))) R (query g e (record { faults = fs; now = s }))
  unfolding query
  query_at-After [] g e s R p o = record { holds = (p, refl); calm = tt }
  query_at-After (true ∷ fs) g e s R p o = cc
  query_at-After (false ∷ fs) g e s R p o = record { holds = (p, refl); calm = o.1 }

  query_at-Always :
      (fs : List Bool) (g : S → A) (e : E) (s : S) (R : E → Env S → Type 0)
      → P s
      → ((env : Env S) → Always P env → R e env)
      → Ends (λ a. Always (λ s. P s × (a ≡ g s))) R (query g e (record { faults = fs; now = s }))
  unfolding query
  query_at-Always [] g e s R p k = record { holds = (p, refl) }
  query_at-Always (true ∷ fs) g e s R p k = k _ (record { holds = p })
  query_at-Always (false ∷ fs) g e s R p k = record { holds = (p, refl) }

module _ {S E A : Type 0} {P : S → Type 0} where
  pub query-Before :
      (g : S → A) (e : E)
      → Triple (Before P) (query g e) (λ a. Before (λ s. P s × (a ≡ g s))) (λ _. After P)
  query-Before g e = record {
    at = λ env p.
        query_at-Before P env.faults g e env.now (λ _. After P) p.holds p.faulty (λ env r. r);
  }

  pub query-After :
      (g : S → A) (e : E) {R : E → Env S → Type 0}
      → Triple (After P) (query g e) (λ a. After (λ s. P s × (a ≡ g s))) R
  query-After g e {R} = record {
    at = λ env p. query_at-After P env.faults g e env.now R p.holds p.calm;
  }

  pub query-Always :
      (g : S → A) (e : E)
      → Triple (Always P) (query g e) (λ a. Always (λ s. P s × (a ≡ g s))) (λ _. Always P)
  query-Always g e = record {
    at = λ env p. query_at-Always P env.faults g e env.now (λ _. Always P) p.holds (λ env r. r);
  }

  pub look-Before :
      (g : S → A) {R : E → Env S → Type 0}
      → Triple (Before P) (look g) (λ a. Before (λ s. P s × (a ≡ g s))) R
  unfolding look
  look-Before g = record { at = λ env p. record { holds = (p.holds, refl); faulty = p.faulty } }

  pub look-After :
      (g : S → A) {R : E → Env S → Type 0}
      → Triple (After P) (look g) (λ a. After (λ s. P s × (a ≡ g s))) R
  unfolding look
  look-After g = record { at = λ env p. record { holds = (p.holds, refl); calm = p.calm } }

  pub look-Always :
      (g : S → A) {R : E → Env S → Type 0}
      → Triple (Always P) (look g) (λ a. Always (λ s. P s × (a ≡ g s))) R
  unfolding look
  look-Always g = record { at = λ env p. record { holds = (p.holds, refl) } }
