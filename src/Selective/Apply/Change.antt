-- ===== src/Selective/Apply/Change.antt =====
-- The changes of `apply` as a transaction: they are made, or the way back leaves no trace.
use free_net_hub.Prelude.{
  not, ◌||◌, ltb, ◌≤◌, ◌≡◌, refl, Bool, true, false, Option, none, some, arith, length,
  if◌then◌else◌, Result, ok, err,
}
use free_net_hub.Prelude.Faults.{Env, Triple, Ends}
use free_net_hub.Prelude.Faults.Rules.{Triple-bind, Triple-except, Triple-pure}
use free_net_hub.Prelude.Faults.Run.{At, CalmAt, run-query, run-assign, run-test, run-lift}
use free_net_hub.Text.{Text}
use free_net_hub.Text.Affix.{eq_of_eq_text}
use free_net_hub.Selective.World.{
  World, auto, Saved, Policy, PolicyFile, absent, corrupt, stored, no_policy, Fault, write_failed,
  service_not_owned, Host, pac_url,
}
use free_net_hub.Selective.Arguments.{known_mode, Wanted, restore_point, service_text}
use free_net_hub.Selective.Apply.{
  Applied, unchanged, enabled, is_none, foreign_unit, undo, new_policy, change,
}
use free_net_hub.Selective.Apply.Undo.{reverted, undo-reverts}
use free_net_hub.Selective.Apply.Steps.{IsUndoable, FailsUndoable, install-Triple, installed}

-- Outside the process nothing has changed but, perhaps, whether the PAC server runs.
pub record SameOutside (before w : World) : Type 0 where
  pub policy : w.policy ≡ before.policy
  pub pac : w.pac ≡ before.pac
  pub unit : w.unit ≡ before.unit
  pub mode : w.mode ≡ before.mode
  pub url : w.url ≡ before.url

-- The settings point at the new PAC file, which is in place and served, the unit is the one that
-- `_service_text` prints, and the policy says so.
pub record IsEnabled (h : Host) (x : Wanted) (restore : Saved) (w : World) : Type 0 where
  pub mode : w.mode ≡ auto
  pub url : w.url ≡ pac_url h x.content
  pub pac : w.pac ≡ some x.content
  pub running : w.running ≡ true
  pub unit : (printed : Text) × (service_text h ≡ ok printed) × (w.unit ≡ some printed)
  pub policy : w.policy ≡ stored (new_policy h x restore)

abbrev pub policy_of : PolicyFile → Option Policy
policy_of absent = some no_policy
policy_of corrupt = none
policy_of (stored p) = some p

-- How `apply` may end when it returns.
abbrev pub Applies : Host → Wanted → World → Applied → World → Type 0
Applies h x before unchanged w = w ≡ before
Applies h x before enabled w =
    (p : Policy) × (restore : Saved) × (policy_of before.policy ≡ some p)
    × (restore_point p before.mode before.url ≡ ok restore)
    × ((not (known_mode before.mode) || ltb 4096 (length before.url)) ≡ false)
    × IsEnabled h x restore w

abbrev pub Unharmed : World → Fault → Env World → Type 0
Unharmed w e env = SameOutside w env.now

pub same_at : (w : World) (env : Env World) → env.now ≡ w → SameOutside w env.now
same_at w env e = rw e (record { policy = refl; pac = refl; unit = refl; mode = refl; url = refl })

pub At-same : (w : World) (e : Fault) (env : Env World) → At w env → Unharmed w e env
At-same w e env p = same_at w env p.world

pub calm_same : (w : World) (env : Env World) → CalmAt w env → SameOutside w env.now
calm_same w env p = same_at w env p.world

reverted-SameOutside :
    (w w' : World) (was_on : Bool) (new_url : Text)
    → IsUndoable (record w { changed_proxy = false }) new_url (is_none w.unit) w'
    → SameOutside w (
        reverted
          (record {
            enabled = was_on;
            mode = w.mode;
            url = w.url;
            pac = w.pac;
            created_service = is_none w.unit;
          })
          w')
reverted-SameOutside w w' was_on new_url u = record {
  policy = ground (arith, u.policy);
  pac = refl;
  unit = ground (arith, u.unit);
  mode = ground (arith, u.mode);
  url = ground (arith, u.url);
}

Ends-same :
    (w w' : World) (e : Fault) (Q : Unit {0} → Env World → Type 0)
    (out : Result Fault Unit × Env World)
    → Ends (λ _ _. ⊥) (λ e' env. (e' ≡ e) × (env.now ≡ w')) out
    → SameOutside w w'
    → Ends Q (Unharmed w) out
Ends-same w w' e Q (ok a, env) h s = absurd h
Ends-same w w' e Q (err a, env) h s = rw h.1 s

-- A unit that is not foreign is the wanted one, once a missing one is written.
unit_there :
    (unit : Text) (there : Option Text)
    → foreign_unit unit there ≡ false
    → (if is_none there then some unit else there) ≡ some unit
unit_there unit none h = refl
unit_there unit (some found) h = rw (eq_of_eq_text found unit (ground arith)) refl

module _ (h : Host) (x : Wanted) (short : length x.content ≤ 32768) where
  undo_all :
      (was_on : Bool) (unit : Text) (restore : Saved) (w : World) (e : Fault)
      → Triple
          (FailsUndoable
            (record w { changed_proxy = false })
            (pac_url h x.content)
            (is_none w.unit))
          (undo
            (record {
              enabled = was_on;
              mode = w.mode;
              url = w.url;
              pac = w.pac;
              created_service = is_none w.unit;
            })
            (pac_url h x.content)
            e)
          (λ _.
            At (installed h x restore unit (is_none w.unit) (record w { changed_proxy = false })))
          (Unharmed w)
  undo_all was_on unit restore w e = record {
    at = λ env f.
        Ends-same w _ e _ _
          ((undo-reverts _ (pac_url h x.content) e env.now f.undoable.moved).at env
            (record { world = refl; calm = f.calm }))
          (reverted-SameOutside w env.now was_on (pac_url h x.content) f.undoable);
  }

  pub change-Triple :
      (p : Policy) (restore : Saved) (w : World)
      → policy_of w.policy ≡ some p
      → restore_point p w.mode w.url ≡ ok restore
      → (not (known_mode w.mode) || ltb 4096 (length w.url)) ≡ false
      → Triple
          (At w)
          (change h x p restore w.mode w.url)
          (λ r env. Applies h x w r env.now)
          (Unharmed w)
  unfolding change
  change-Triple p restore w found back fits =
      run-lift (service_text h) _ (λ e env. At-same w e env)
        (λ unit printed. run-query w _ write_failed _ (calm_same w) (
          run-test (foreign_unit unit w.unit) service_not_owned _
            (λ env. At-same w service_not_owned env)
            (λ ours. run-query w _ write_failed _ (calm_same w) (
              run-assign w _ _ (
                Triple-bind _ _
                  (Triple-except _ _
                    (install-Triple h x restore unit (record w { changed_proxy = false }) short refl
                      (is_none w.unit))
                    (λ e. undo_all p.enabled unit restore w e))
                  (λ _. Triple-pure enabled (λ env q. (
                    p,
                    restore,
                    found,
                    back,
                    fits,
                    rw q.world (record {
                      mode = refl;
                      url = refl;
                      pac = refl;
                      running = refl;
                      unit = (unit, printed, unit_there unit w.unit ours);
                      policy = refl;
                    }),
                  ))))))))
