-- ===== src/Prelude/Faults/Quiet.antt =====
-- Programs that leave the world as it is, whether they return or raise.
use mathlib.Core.Path.{◌≡◌}
use mathlib.Core.Bool.{Bool, true, false}
use mathlib.Core.List.{List, [], ◌∷◌}
use free_net_hub.Prelude.Tests.{if◌then◌else◌}
use free_net_hub.Prelude.Exec.{Exec, pure, raise, except, ◌>>=◌}
use free_net_hub.Prelude.Faults.{Env, query, poll, OneFault, Ends, Triple}
use free_net_hub.Prelude.Faults.Rules.{
  Triple-bind, Triple-mono, Triple-pure, Triple-raise, Triple-except, calm_one,
}
use free_net_hub.Prelude.Faults.Run.{At, CalmAt}

pub record Quiet {S E A : Type 0} (w : S) (m : Exec (Env S) E A) : Type 0 where
  pub keeps : Triple (At w) m (λ _. At w) (λ _. At w)

pub CalmAt-At : {S : Type 0} (w : S) (env : Env S) → CalmAt w env → At w env
CalmAt-At w env c = record { world = c.world; faulty = calm_one env.faults c.calm }

module _ {S E A : Type 0} where
  pub Quiet-pure : (w : S) (a : A) → Quiet w (pure {E = E} a)
  Quiet-pure w a = record { keeps = Triple-pure a (λ env p. p) }

  pub Quiet-raise : (w : S) (e : E) → Quiet w (raise {A = A} e)
  Quiet-raise w e = record { keeps = Triple-raise e (λ env p. p) }

  quiet_query :
      (fs : List Bool) (s w : S) (g : S → A) (e : E)
      → s ≡ w
      → OneFault fs
      → Ends (λ _. At w) (λ _. At w) (query g e (record { faults = fs; now = s }))
  unfolding query
  quiet_query [] s w g e p o = record { world = p; faulty = tt }
  quiet_query (true ∷ fs) s w g e p o = record { world = p; faulty = calm_one fs o }
  quiet_query (false ∷ fs) s w g e p o = record { world = p; faulty = o }

  pub Quiet-query : (w : S) (g : S → A) (e : E) → Quiet w (query g e)
  Quiet-query w g e = record {
    keeps = record { at = λ env p. quiet_query env.faults env.now w g e p.world p.faulty };
  }

  pub Quiet-except :
      (w : S) (m : Exec (Env S) E A) (handler : E → Exec (Env S) E A)
      → Quiet w m
      → ((e : E) → Quiet w (handler e))
      → Quiet w (except m handler)
  Quiet-except w m handler q k = record {
    keeps = Triple-except m handler q.keeps (λ e. (k e).keeps);
  }

  pub Quiet-if :
      (w : S) (b : Bool) (m n : Exec (Env S) E A)
      → Quiet w m
      → Quiet w n
      → Quiet w (if b then m else n)
  Quiet-if w true m n q r = q
  Quiet-if w false m n q r = r

module _ {S : Type 0} (E : Type 0) where
  quiet_poll :
      (fs : List Bool) (s w : S) (g : S → Bool)
      → s ≡ w
      → OneFault fs
      → Ends (λ _. At w) (λ _. At w) (poll {E = E} g (record { faults = fs; now = s }))
  unfolding poll
  quiet_poll [] s w g p o = record { world = p; faulty = tt }
  quiet_poll (true ∷ fs) s w g p o = record { world = p; faulty = calm_one fs o }
  quiet_poll (false ∷ fs) s w g p o = record { world = p; faulty = o }

module _ {S E : Type 0} where
  pub Quiet-poll : (w : S) (g : S → Bool) → Quiet w (poll {E = E} g)
  Quiet-poll w g = record {
    keeps = record { at = λ env p. quiet_poll E env.faults env.now w g p.world p.faulty };
  }

module _ {S E A B : Type 0} where
  pub Quiet-bind :
      (w : S) (m : Exec (Env S) E A) (f : A → Exec (Env S) E B)
      → Quiet w m
      → ((a : A) → Quiet w (f a))
      → Quiet w (m >>= f)
  Quiet-bind w m f q k = record { keeps = Triple-bind m f q.keeps (λ a. (k a).keeps) }

  -- The rest after a quiet program whose value does not matter.
  pub run-Quiet :
      {Q : B → Env S → Type 0} {R : E → Env S → Type 0} (w : S) (m : Exec (Env S) E A)
      (f : A → Exec (Env S) E B)
      → Quiet w m
      → ((e : E) (env : Env S) → At w env → R e env)
      → ((a : A) → Triple (At w) (f a) Q R)
      → Triple (At w) (m >>= f) Q R
  run-Quiet w m f q k t =
      Triple-bind m f (Triple-mono m (λ s p. p) (λ a s p. p) (λ e s p. k e s p) q.keeps) t
