-- ===== src/Prelude/Faults/Anyhow.antt =====
-- Symbolic execution under any faults at all: what a program that returns has done.
use mathlib.Core.Path.{◌≡◌, ap, sym, subst}
use mathlib.Core.Bool.{Bool, true, false}
use mathlib.Core.List.{List, [], ◌∷◌}
use free_net_hub.Prelude.Exec.{Exec, ◌>>=◌, ◌>>◌}
use free_net_hub.Prelude.Faults.{Env, attempt, query, Ends, Triple}

pub record Now {S : Type 0} (w : S) (env : Env S) : Type 0 where
  pub world : env.now ≡ w

module _ {S E A : Type 0} (Q : A → Env S → Type 0) (R : E → Env S → Type 0) where
  now_attempt :
      (fs : List Bool) (s w : S) (f : S → S) (e : E) (m : Exec (Env S) E A)
      → s ≡ w
      → ((env : Env S) → Now w env → R e env)
      → Triple (Now (f w)) m Q R
      → Ends Q R ((attempt f e >> m) (record { faults = fs; now = s }))
  unfolding attempt ◌>>=◌
  now_attempt [] s w f e m p k t = t.at _ (record { world = ap f p })
  now_attempt (true ∷ fs) s w f e m p k t = k _ (record { world = p })
  now_attempt (false ∷ fs) s w f e m p k t = t.at _ (record { world = ap f p })

module _ {S E A B : Type 0} (Q : B → Env S → Type 0) (R : E → Env S → Type 0) where
  now_query :
      (fs : List Bool) (s w : S) (g : S → A) (f : A → Exec (Env S) E B) (e : E)
      → s ≡ w
      → ((env : Env S) → Now w env → R e env)
      → Triple (Now w) (f (g w)) Q R
      → Ends Q R ((query g e >>= f) (record { faults = fs; now = s }))
  unfolding query ◌>>=◌
  now_query [] s w g f e p k t =
      subst (λ a. Ends Q R (f (g a) (record { faults = []; now = s }))) (sym p)
        (t.at _ (record { world = p }))
  now_query (true ∷ fs) s w g f e p k t = k _ (record { world = p })
  now_query (false ∷ fs) s w g f e p k t =
      subst (λ a. Ends Q R (f (g a) (record { faults = fs; now = s }))) (sym p)
        (t.at _ (record { world = p }))

module _ {S E A : Type 0} {Q : A → Env S → Type 0} {R : E → Env S → Type 0} where
  pub any-attempt :
      (w : S) (f : S → S) (e : E) (m : Exec (Env S) E A)
      → ((env : Env S) → Now w env → R e env)
      → Triple (Now (f w)) m Q R
      → Triple (Now w) (attempt f e >> m) Q R
  any-attempt w f e m k t = record {
    at = λ env p. now_attempt Q R env.faults env.now w f e m p.world k t;
  }

module _ {S E A B : Type 0} {Q : B → Env S → Type 0} {R : E → Env S → Type 0} where
  pub any-query :
      (w : S) (g : S → A) (e : E) (f : A → Exec (Env S) E B)
      → ((env : Env S) → Now w env → R e env)
      → Triple (Now w) (f (g w)) Q R
      → Triple (Now w) (query g e >>= f) Q R
  any-query w g e f k t = record {
    at = λ env p. now_query Q R env.faults env.now w g f e p.world k t;
  }
