-- ===== src/Prelude/Exec.antt =====
-- Python methods that change a state and may raise: what was written before a raise stays written,
-- so the state comes back beside the exception too.
use mathlib.Core.Bool.{Bool, true, false}
use free_net_hub.Prelude.Outcome.{Result, ok, err}

abbrev pub Exec : Type 0 → Type 0 → Type 0 → Type 0
Exec S E A = S → Result E A × S

module _ {S E A : Type 0} where
  unfoldable pub pure : A → Exec S E A
  pure a s = (ok a, s)

  unfoldable pub raise : E → Exec S E A
  raise e s = (err e, s)

  unfoldable pub gets : (S → A) → Exec S E A
  gets f s = (ok (f s), s)

  unfoldable pub lift : Result E A → Exec S E A
  lift r s = (r, s)

module _ {S E A B : Type 0} where
  abbrev pub continue : Result E A → (A → Exec S E B) → Exec S E B
  continue (ok a) f s = f a s
  continue (err e) f s = (err e, s)

  infixl 5 ◌>>=◌ ◌>>◌
  -- Opening this opens the actions above too.
  unfoldable pub ◌>>=◌ : Exec S E A → (A → Exec S E B) → Exec S E B
  unfolding pure raise gets lift
  ◌>>=◌ m f s = let (r, s') = m s in continue r f s'

  abbrev pub ◌>>◌ : Exec S E A → Exec S E B → Exec S E B
  m >> k = m >>= λ _. k

module _ {S E : Type 0} where
  unfoldable pub modify : (S → S) → Exec S E Unit
  modify f s = (ok tt, f s)

  unfoldable pub raise_when : Bool → E → Exec S E Unit
  raise_when true e s = (err e, s)
  raise_when false e s = (ok tt, s)

-- `try: m  except ...: handler`, where `handler` sees the exception and the state it left.
abbrev pub caught : {S E A : Type 0} → (E → Exec S E A) → Result E A × S → Result E A × S
caught handler (ok a, s) = (ok a, s)
caught handler (err e, s) = handler e s

unfoldable pub except : {S E A : Type 0} → Exec S E A → (E → Exec S E A) → Exec S E A
except m handler s = caught handler (m s)
