-- ===== src/Prelude/Faults/Run.antt =====
-- Symbolic execution: the world is known, so each command has one outcome, or one more if it fails.
use mathlib.Core.Path.{◌≡◌, refl, ap, sym, subst}
use free_net_hub.Prelude.Outcome.{Result, ok, err}
use mathlib.Core.Bool.{Bool, true, false}
use mathlib.Core.List.{List, [], ◌∷◌}
use free_net_hub.Prelude.Exec.{lift, pure, Exec, raise_when, ◌>>=◌, ◌>>◌}
use free_net_hub.Prelude.Faults.Rules.{Triple-bind, Triple-mono}
use free_net_hub.Prelude.Faults.{Env, attempt, assign, query, look, Calm, OneFault, Ends, Triple}

-- The world is `w`, with at most one fault to come, or with none.
pub record At {S : Type 0} (w : S) (env : Env S) : Type 0 where
  pub world : env.now ≡ w
  pub faulty : OneFault env.faults

pub record CalmAt {S : Type 0} (w : S) (env : Env S) : Type 0 where
  pub world : env.now ≡ w
  pub calm : Calm env.faults

module _ {S E A : Type 0} (Q : A → Env S → Type 0) (R : E → Env S → Type 0) where
  attempt-At :
      (fs : List Bool) (s w : S) (f : S → S) (e : E) (m : Exec (Env S) E A)
      → s ≡ w
      → OneFault fs
      → ((env : Env S) → CalmAt w env → R e env)
      → Triple (At (f w)) m Q R
      → Ends Q R ((attempt f e >> m) (record { faults = fs; now = s }))
  unfolding attempt ◌>>=◌
  attempt-At [] s w f e m p o k t = t.at _ (record { world = ap f p; faulty = tt })
  attempt-At (true ∷ fs) s w f e m p o k t =
      k (record { faults = fs; now = s }) (record { world = p; calm = o })
  attempt-At (false ∷ fs) s w f e m p o k t = t.at _ (record { world = ap f p; faulty = o })

  calm_attempt :
      (fs : List Bool) (s w : S) (f : S → S) (e : E) (m : Exec (Env S) E A)
      → s ≡ w
      → Calm fs
      → Triple (CalmAt (f w)) m Q R
      → Ends Q R ((attempt f e >> m) (record { faults = fs; now = s }))
  unfolding attempt ◌>>=◌
  calm_attempt [] s w f e m p o t = t.at _ (record { world = ap f p; calm = tt })
  calm_attempt (true ∷ fs) s w f e m p o t = cc
  calm_attempt (false ∷ fs) s w f e m p o t = t.at _ (record { world = ap f p; calm = o.1 })

module _ {S E A B : Type 0} (Q : B → Env S → Type 0) (R : E → Env S → Type 0) where
  query-At :
      (fs : List Bool) (s w : S) (g : S → A) (f : A → Exec (Env S) E B) (e : E)
      → s ≡ w
      → OneFault fs
      → ((env : Env S) → CalmAt w env → R e env)
      → Triple (At w) (f (g w)) Q R
      → Ends Q R ((query g e >>= f) (record { faults = fs; now = s }))
  unfolding query ◌>>=◌
  query-At [] s w g f e p o k t =
      subst (λ a. Ends Q R (f (g a) (record { faults = []; now = s }))) (sym p)
        (t.at (record { faults = []; now = s }) (record { world = p; faulty = tt }))
  query-At (true ∷ fs) s w g f e p o k t =
      k (record { faults = fs; now = s }) (record { world = p; calm = o })
  query-At (false ∷ fs) s w g f e p o k t =
      subst (λ a. Ends Q R (f (g a) (record { faults = fs; now = s }))) (sym p)
        (t.at (record { faults = fs; now = s }) (record { world = p; faulty = o }))

  calm_query :
      (fs : List Bool) (s w : S) (g : S → A) (f : A → Exec (Env S) E B) (e : E)
      → s ≡ w
      → Calm fs
      → Triple (CalmAt w) (f (g w)) Q R
      → Ends Q R ((query g e >>= f) (record { faults = fs; now = s }))
  unfolding query ◌>>=◌
  calm_query [] s w g f e p o t =
      subst (λ a. Ends Q R (f (g a) (record { faults = []; now = s }))) (sym p)
        (t.at (record { faults = []; now = s }) (record { world = p; calm = tt }))
  calm_query (true ∷ fs) s w g f e p o t = cc
  calm_query (false ∷ fs) s w g f e p o t =
      subst (λ a. Ends Q R (f (g a) (record { faults = fs; now = s }))) (sym p)
        (t.at (record { faults = fs; now = s }) (record { world = p; calm = o.1 }))

module _ {S E A : Type 0} {Q : A → Env S → Type 0} {R : E → Env S → Type 0} where
  -- A command, then the rest.
  pub run-attempt :
      (w : S) (f : S → S) (e : E) (m : Exec (Env S) E A)
      → ((env : Env S) → CalmAt w env → R e env)
      → Triple (At (f w)) m Q R
      → Triple (At w) (attempt f e >> m) Q R
  run-attempt w f e m k t = record {
    at = λ env p. attempt-At Q R env.faults env.now w f e m p.world p.faulty k t;
  }

  pub calm-attempt :
      (w : S) (f : S → S) (e : E) (m : Exec (Env S) E A)
      → Triple (CalmAt (f w)) m Q R
      → Triple (CalmAt w) (attempt f e >> m) Q R
  calm-attempt w f e m t = record {
    at = λ env p. calm_attempt Q R env.faults env.now w f e m p.world p.calm t;
  }

  pub run-assign :
      (w : S) (f : S → S) (m : Exec (Env S) E A)
      → Triple (At (f w)) m Q R
      → Triple (At w) (assign f >> m) Q R
  unfolding assign ◌>>=◌
  run-assign w f m t = record {
    at = λ env p.
        t.at (record env { now = f env.now }) (record { world = ap f p.world; faulty = p.faulty });
  }

module _ {S E A B : Type 0} {Q : B → Env S → Type 0} {R : E → Env S → Type 0} where
  pub run-query :
      (w : S) (g : S → A) (e : E) (f : A → Exec (Env S) E B)
      → ((env : Env S) → CalmAt w env → R e env)
      → Triple (At w) (f (g w)) Q R
      → Triple (At w) (query g e >>= f) Q R
  run-query w g e f k t = record {
    at = λ env p. query-At Q R env.faults env.now w g f e p.world p.faulty k t;
  }

  pub calm-query :
      (w : S) (g : S → A) (e : E) (f : A → Exec (Env S) E B)
      → Triple (CalmAt w) (f (g w)) Q R
      → Triple (CalmAt w) (query g e >>= f) Q R
  calm-query w g e f t = record {
    at = λ env p. calm_query Q R env.faults env.now w g f e p.world p.calm t;
  }

  pub calm-look :
      (w : S) (g : S → A) (f : A → Exec (Env S) E B)
      → Triple (CalmAt w) (f (g w)) Q R
      → Triple (CalmAt w) (look g >>= f) Q R
  unfolding look ◌>>=◌
  calm-look w g f t = record {
    at = λ env p. subst (λ a. Ends Q R (f (g a) env)) (sym p.world) (t.at env p);
  }

  pub run-pure :
      {P : Env S → Type 0} (a : A) (f : A → Exec (Env S) E B)
      → Triple P (f a) Q R
      → Triple P (pure a >>= f) Q R
  unfolding pure ◌>>=◌
  run-pure a f t = record { at = λ env p. t.at env p }

module _ {S E : Type 0} where
  calm_last :
      (fs : List Bool) (s w : S) (f : S → S) (e : E) (R : E → Env S → Type 0)
      → s ≡ w
      → Calm fs
      → Ends (λ _. CalmAt (f w)) R (attempt f e (record { faults = fs; now = s }))
  unfolding attempt
  calm_last [] s w f e R p o = record { world = ap f p; calm = tt }
  calm_last (true ∷ fs) s w f e R p o = cc
  calm_last (false ∷ fs) s w f e R p o = record { world = ap f p; calm = o.1 }

  pub calm-attempt_last :
      (w : S) (f : S → S) (e : E) {R : E → Env S → Type 0}
      → Triple (CalmAt w) (attempt f e) (λ _. CalmAt (f w)) R
  calm-attempt_last w f e {R} = record {
    at = λ env p. calm_last env.faults env.now w f e R p.world p.calm;
  }

  run_last :
      (fs : List Bool) (s w : S) (f : S → S) (e : E) (R : E → Env S → Type 0)
      → s ≡ w
      → OneFault fs
      → ((env : Env S) → CalmAt w env → R e env)
      → Ends (λ _. At (f w)) R (attempt f e (record { faults = fs; now = s }))
  unfolding attempt
  run_last [] s w f e R p o k = record { world = ap f p; faulty = tt }
  run_last (true ∷ fs) s w f e R p o k =
      k (record { faults = fs; now = s }) (record { world = p; calm = o })
  run_last (false ∷ fs) s w f e R p o k = record { world = ap f p; faulty = o }

  pub run-attempt_last :
      (w : S) (f : S → S) (e : E) {R : E → Env S → Type 0}
      → ((env : Env S) → CalmAt w env → R e env)
      → Triple (At w) (attempt f e) (λ _. At (f w)) R
  run-attempt_last w f e {R} k = record {
    at = λ env p. run_last env.faults env.now w f e R p.world p.faulty k;
  }

-- A program that returns one known value and changes nothing.
pub record Yields {S E A : Type 0} (w : S) (m : Exec (Env S) E A) (a : A) : Type 0 where
  pub gives : Triple (At w) m (λ x env. (x ≡ a) × At w env) (λ _ _. ⊥)

module _ {S E A B : Type 0} {Q : B → Env S → Type 0} {R : E → Env S → Type 0} where
  pub run-Yields :
      (w : S) (m : Exec (Env S) E A) (a : A) (f : A → Exec (Env S) E B)
      → Yields w m a
      → Triple (At w) (f a) Q R
      → Triple (At w) (m >>= f) Q R
  run-Yields w m a f y t =
      Triple-bind m f (Triple-mono m (λ s p. p) (λ x s q. q) (λ e s r. absurd r) y.gives)
        (λ x. record { at = λ env q. subst (λ x. Ends Q R (f x env)) (sym q.0) (t.at env q.1) })

module _ {S E B : Type 0} {Q : B → Env S → Type 0} {R : E → Env S → Type 0} where
  pub run-guard :
      {P : Env S → Type 0} (b : Bool) (e : E) (m : Exec (Env S) E B)
      → b ≡ false
      → Triple P m Q R
      → Triple P (raise_when b e >> m) Q R
  unfolding raise_when ◌>>=◌
  run-guard true e m h t = cc
  run-guard false e m h t = record { at = λ env p. t.at env p }

module _ {S E B : Type 0} {P : Env S → Type 0} {Q : B → Env S → Type 0}
    {R : E → Env S → Type 0} where
  -- `raise` on one side of a test.
  pub run-test :
      (b : Bool) (e : E) (m : Exec (Env S) E B)
      → ((env : Env S) → P env → R e env)
      → (b ≡ false → Triple P m Q R)
      → Triple P (raise_when b e >> m) Q R
  unfolding raise_when ◌>>=◌
  run-test true e m k t = record { at = k }
  run-test false e m k t = record { at = λ env p. (t refl).at env p }

  -- A pure computation that may raise.
  pub run-lift :
      {A : Type 0} (r : Result E A) (f : A → Exec (Env S) E B)
      → ((e : E) (env : Env S) → P env → R e env)
      → ((a : A) → r ≡ ok a → Triple P (f a) Q R)
      → Triple P (lift r >>= f) Q R
  unfolding ◌>>=◌
  run-lift (ok a) f k t = record { at = λ env p. (t a refl).at env p }
  run-lift (err e) f k t = record { at = k e }
