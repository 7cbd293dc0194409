-- ===== src/Prelude/Faults.antt =====
-- Code that changes the outside world by commands that may fail. A schedule says of each command to
-- come whether it fails; a command that fails raises and has no effect. Every schedule is a possible
-- run, so a theorem about all of them is about every way in which commands can fail.
pub mod Rules
pub mod Run
pub mod Quiet
pub mod Anyhow
use mathlib.Core.Path.{◌≡◌}
use mathlib.Core.Bool.{Bool, true, false}
use mathlib.Core.List.{List, [], ◌∷◌}
use free_net_hub.Prelude.Outcome.{Result, ok, err}
use free_net_hub.Prelude.Exec.{Exec, continue, pure, raise, ◌>>=◌, caught, except}

pub record Env (S : Type 0) : Type 0 where
  pub faults : List Bool
  pub now : S

module _ {S E : Type 0} where
  abbrev attempt_at : List Bool → (S → S) → E → S → Result E Unit × Env S
  attempt_at [] f e s = (ok tt, record { faults = []; now = f s })
  attempt_at (true ∷ fs) f e s = (err e, record { faults = fs; now = s })
  attempt_at (false ∷ fs) f e s = (ok tt, record { faults = fs; now = f s })

  -- A command with an effect.
  unfoldable pub attempt : (S → S) → E → Exec (Env S) E Unit
  attempt f e env = attempt_at env.faults f e env.now

  -- An assignment to a variable of the program, which cannot fail.
  unfoldable pub assign : (S → S) → Exec (Env S) E Unit
  assign f env = (ok tt, record env { now = f env.now })

module _ {S E A : Type 0} where
  abbrev query_at : List Bool → (S → A) → E → S → Result E A × Env S
  query_at [] g e s = (ok (g s), record { faults = []; now = s })
  query_at (true ∷ fs) g e s = (err e, record { faults = fs; now = s })
  query_at (false ∷ fs) g e s = (ok (g s), record { faults = fs; now = s })

  -- A command that reads.
  unfoldable pub query : (S → A) → E → Exec (Env S) E A
  query g e env = query_at env.faults g e env.now

  -- What the program already has at hand.
  unfoldable pub look : (S → A) → Exec (Env S) E A
  look g env = (ok (g env.now), env)

module _ {S E : Type 0} where
  abbrev poll_at : List Bool → (S → Bool) → S → Result E Bool × Env S
  poll_at [] g s = (ok (g s), record { faults = []; now = s })
  poll_at (true ∷ fs) g s = (ok false, record { faults = fs; now = s })
  poll_at (false ∷ fs) g s = (ok (g s), record { faults = fs; now = s })

  -- A test of a service, which a fault makes negative instead of raising.
  unfoldable pub poll : (S → Bool) → Exec (Env S) E Bool
  poll g env = poll_at env.faults g env.now

-- No command to come fails.
abbrev pub Calm : List Bool → Type 0
Calm [] = Unit
Calm (b ∷ fs) = (b ≡ false) × Calm fs

-- One command to come fails at most.
abbrev pub OneFault : List Bool → Type 0
OneFault [] = Unit
OneFault (true ∷ fs) = Calm fs
OneFault (false ∷ fs) = OneFault fs

-- A fact about the world, with at most one fault, no fault, or any number of faults to come.
pub record Before {S : Type 0} (P : S → Type 0) (env : Env S) : Type 0 where
  pub holds : P env.now
  pub faulty : OneFault env.faults

pub record After {S : Type 0} (P : S → Type 0) (env : Env S) : Type 0 where
  pub holds : P env.now
  pub calm : Calm env.faults

pub record Always {S : Type 0} (P : S → Type 0) (env : Env S) : Type 0 where
  pub holds : P env.now

-- How a run ends: `Q` of the result and the state, or `R` of the exception and the state.
abbrev pub Ends : {S E A : Type 0} → (A → S → Type 0) → (E → S → Type 0) → Result E A × S → Type 0
Ends Q R (ok a, s) = Q a s
Ends Q R (err e, s) = R e s

pub record Triple {S E A : Type 0} (P : S → Type 0) (m : Exec S E A) (Q : A → S → Type 0)
    (R : E → S → Type 0) : Type 0 where
  pub at : (s : S) → P s → Ends Q R (m s)
