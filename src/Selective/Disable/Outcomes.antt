-- ===== src/Selective/Disable/Outcomes.antt =====
-- What `disable` has done, by what it returned, however its commands failed.
use free_net_hub.Prelude.{
  ◌≡◌, refl, sym, ap, ◌∙◌, ◌⊎◌, inl, inr, Bool, true, false, not, ◌&&◌, Option, none, some, leb,
  length, if◌then◌else◌,
}
use free_net_hub.Prelude.Exec.{pure, except}
use free_net_hub.Prelude.Faults.{Env, Triple, Ends}
use free_net_hub.Prelude.Faults.Rules.{
  Triple-bind, Triple-except, Triple-pure, Triple-raise, Triple-if,
}
use free_net_hub.Prelude.Faults.Run.{run-test}
use free_net_hub.Prelude.Faults.Anyhow.{Now, any-attempt, any-query}
use free_net_hub.Text.{Text, eq_text}
use free_net_hub.Text.Affix.{eq_of_eq_text, eq_text_refl}
use free_net_hub.Selective.World.{
  World, Mode, off, auto, manual, unknown, Saved, Policy, PolicyFile, absent, corrupt, stored,
  no_policy, Fault, state_corrupt, command_failed, write_failed, rollback_unverified, get_mode,
  get_url, set_mode, set_url, write_policy, read_policy, read_as, disable_service, eq_mode,
}
use free_net_hub.Selective.Apply.Change.{policy_of}
use free_net_hub.Selective.Arguments.{known_mode}
use free_net_hub.Selective.Disable.{
  Disabled, already_disabled, settings_drift, rollback_state_invalid, disabled, disable_partial,
  eq_stored, switched_off, restore, restore_from, disable_url, disable_bound, disable,
}

-- The settings are those that `apply` makes for this policy.
abbrev pub AreOurs : World → Policy → Type 0
AreOurs w p = (w.mode ≡ auto) × (p.pac_url ≡ some w.url)

abbrev pub IsOn : World → Policy → Type 0
IsOn w p = (w.policy ≡ stored p) × (p.enabled ≡ true)

-- What `disable` accepts of the settings that a policy has saved.
abbrev pub IsWayBack : Saved → Type 0
IsWayBack s = (known_mode s.mode && leb (length s.url) 4096) ≡ true

-- The settings saved by a policy that was enabled are back, and the policy is switched off.
pub record IsRestored (before : World) (p : Policy) (s : Saved) (w : World) : Type 0 where
  pub on : IsOn before p
  pub ours : AreOurs before p
  pub saved : p.previous ≡ some s
  pub mode : w.mode ≡ s.mode
  pub url : w.url ≡ s.url
  pub policy : w.policy ≡ stored (switched_off p)
  pub stopped : w.running ≡ false
  pub pac : w.pac ≡ before.pac
  pub unit : w.unit ≡ before.unit

-- How far the way back has come: nothing is done, the URL is back, or both settings are, or the policy
-- is switched off as well; the server has not been touched.
abbrev pub with_url : World → Saved → World
with_url w s = record w { url = s.url }

abbrev pub with_mode : World → Saved → World
with_mode w s = record (with_url w s) { mode = s.mode }

abbrev pub with_policy : World → Policy → Saved → World
with_policy w p s = record (with_mode w s) { policy = stored (switched_off p) }

abbrev pub IsBetween : World → Policy → Saved → World → Type 0
IsBetween before p s w =
    (w ≡ before)
    ⊎ ((w ≡ with_url before s) ⊎ ((w ≡ with_mode before s) ⊎ (w ≡ with_policy before p s)))

pub record IsPartial (before : World) (p : Policy) (s : Saved) (w : World) : Type 0 where
  pub on : IsOn before p
  pub ours : AreOurs before p
  pub saved : p.previous ≡ some s
  pub between : IsBetween before p s w

abbrev pub Disables : World → Disabled → World → Type 0
Disables before already_disabled w =
    (w ≡ before) × ((p : Policy) × (policy_of before.policy ≡ some p) × (p.enabled ≡ false))
Disables before settings_drift w =
    (w ≡ before) × ((p : Policy) × IsOn before p × ¬ (AreOurs before p))
Disables before rollback_state_invalid w =
    (w ≡ before)
    × ((p : Policy) × IsOn before p
        × AreOurs before p
        × ((s : Saved) → p.previous ≡ some s → ¬ (IsWayBack s)))
Disables before disabled w = (p : Policy) × (s : Saved) × IsRestored before p s w
Disables before disable_partial w = (p : Policy) × (s : Saved) × IsPartial before p s w

abbrev Finishes : World → Disabled → Env World → Type 0
Finishes before r env = Disables before r env.now

abbrev Untouched : World → Fault → Env World → Type 0
Untouched before e env = env.now ≡ before

abbrev Between : World → Policy → Saved → Fault → Env World → Type 0
Between before p s e env = IsBetween before p s env.now

untouched : (w : World) (env : Env World) → Now w env → env.now ≡ w
untouched w env n = n.world

module _ (w : World) (p : Policy) (s : Saved) (on : IsOn w p) (ours : AreOurs w p)
    (saved : p.previous ≡ some s) where
  restore-Triple : Triple (Now w) (restore p s) (Finishes w) (Between w p s)
  unfolding restore set_url set_mode get_mode get_url write_policy disable_service
  restore-Triple =
      let w1 : World = with_url w s in
      let w2 : World = with_mode w s in
      let w3 : World = with_policy w p s in
      any-attempt w _ command_failed _ (λ env n. inl n.world)
        (any-attempt w1 _ command_failed _ (λ env n. inr (inl n.world))
          (any-query w2 _ command_failed _ (λ env n. inr (inr (inl n.world)))
            (run-test (not (eq_mode s.mode s.mode)) rollback_unverified _
              (λ env n. inr (inr (inl n.world)))
              (λ _.
                any-query w2 _ command_failed _ (λ env n. inr (inr (inl n.world)))
                  (run-test (not (eq_text s.url s.url)) rollback_unverified _
                    (λ env n. inr (inr (inl n.world)))
                    (λ _.
                      any-attempt w2 _ write_failed _ (λ env n. inr (inr (inl n.world)))
                        (any-attempt w3 _ command_failed _ (λ env n. inr (inr (inr n.world)))
                          (Triple-pure disabled (λ env n. (
                            p,
                            s,
                            rw n.world (record {
                              on = on;
                              ours = ours;
                              saved = saved;
                              mode = refl;
                              url = refl;
                              policy = refl;
                              stopped = refl;
                              pac = refl;
                              unit = refl;
                            }),
                          ))))))))))

saved_inj : {a b : Saved} → some a ≡ some b → a ≡ b
saved_inj h = cc

eq_stored-some :
    (url : Text) (stored_url : Option Text)
    → eq_stored url stored_url ≡ true
    → stored_url ≡ some url
eq_stored-some url none h = cc
eq_stored-some url (some u) h = ap some (sym (eq_of_eq_text url u h))

some-eq_stored :
    (url : Text) (stored_url : Option Text)
    → eq_stored url stored_url ≡ false
    → ¬ (stored_url ≡ some url)
some-eq_stored url stored_url h e =
    let again : eq_text url url ≡ false = rw e at h in cc (again, eq_text_refl url)

auto_of : (m : Mode) → eq_mode m auto ≡ true → m ≡ auto
auto_of off h = cc
auto_of auto h = refl
auto_of manual h = cc
auto_of (unknown m) h = cc

not_auto : (m : Mode) → eq_mode m auto ≡ false → ¬ (m ≡ auto)
not_auto m h e = let again : eq_mode auto auto ≡ false = rw e at h in cc

is_true : (b : Bool) → not b ≡ false → b ≡ true
is_true true h = refl
is_true false h = cc

is_false : (b : Bool) → not b ≡ true → b ≡ false
is_false true h = cc
is_false false h = refl

module _ (w : World) (p : Policy) (on : IsOn w p) where
  module _ (ours : AreOurs w p) where
    checked-Triple :
        (s : Saved) (valid : Bool)
        → (known_mode s.mode && leb (length s.url) 4096) ≡ valid
        → p.previous ≡ some s
        → Triple
            (Now w)
            (if valid
              then except (restore p s) (λ e. pure disable_partial)
              else pure rollback_state_invalid)
            (Finishes w)
            (Untouched w)
    checked-Triple s true good saved = Triple-except _ _ (restore-Triple w p s on ours saved) (λ e.
        Triple-pure disable_partial
          (λ env f. (p, s, record { on = on; ours = ours; saved = saved; between = f })))
    checked-Triple s false bad saved = Triple-pure rollback_state_invalid (λ env n. (
      n.world,
      (
        p,
        on,
        ours,
        λ s' e good.
            let same : s ≡ s' = saved_inj (sym saved ∙ e) in
            let again : IsWayBack s = rw (same) good in cc,
      ),
    ))

    restore_from-Triple :
        (previous : Option Saved)
        → p.previous ≡ previous
        → Triple (Now w) (restore_from p previous) (Finishes w) (Untouched w)
    unfolding restore_from
    restore_from-Triple none e =
        Triple-pure rollback_state_invalid (λ env n. (n.world, (p, on, ours, λ s h good. cc)))
    restore_from-Triple (some s) e =
        checked-Triple s (known_mode s.mode && leb (length s.url) 4096) refl e

  disable_url-Triple : w.mode ≡ auto → Triple (Now w) (disable_url p) (Finishes w) (Untouched w)
  unfolding disable_url get_url
  disable_url-Triple is_auto = any-query w _ command_failed _ (untouched w) (
      Triple-if _ _ _
        (λ same. restore_from-Triple (is_auto, eq_stored-some w.url p.pac_url same) p.previous refl)
        (λ other.
          Triple-pure settings_drift
            (λ env n. (n.world, (p, on, λ ours. some-eq_stored w.url p.pac_url other ours.1)))))

  disable_bound-Triple : Triple (Now w) (disable_bound p) (Finishes w) (Untouched w)
  unfolding disable_bound get_mode
  disable_bound-Triple = any-query w _ command_failed _ (untouched w) (
      Triple-if _ _ _
        (λ other.
          Triple-pure settings_drift
            (λ env n. (n.world, (p, on, λ ours. not_auto w.mode (is_false _ other) ours.0))))
        (λ same. disable_url-Triple (auto_of w.mode (is_true _ same))))

policy-Triple :
    (w : World) (p : Policy)
    → policy_of w.policy ≡ some p
    → (p.enabled ≡ true → w.policy ≡ stored p)
    → Triple
        (Now w)
        (if p.enabled then disable_bound p else pure already_disabled)
        (Finishes w)
        (Untouched w)
policy-Triple w p known found =
    Triple-if _ _ _ (λ on. disable_bound-Triple w p (found on, on))
      (λ off. Triple-pure already_disabled (λ env n. (n.world, (p, known, off))))

file-Triple :
    (w : World) (file : PolicyFile)
    → w.policy ≡ file
    → Triple
        (Now w)
        (read_as file)
        (λ p env.
          ((policy_of w.policy ≡ some p) × (p.enabled ≡ true → w.policy ≡ stored p)) × Now w env)
        (Untouched w)
file-Triple w absent e = Triple-pure no_policy (λ env n. ((rw e refl, λ on. cc), n))
file-Triple w corrupt e = Triple-raise state_corrupt (untouched w)
file-Triple w (stored p) e = Triple-pure p (λ env n. ((rw e refl, λ on. e), n))

disable-Triple : (w : World) → Triple (Now w) disable (Finishes w) (Untouched w)
unfolding disable read_policy
disable-Triple w =
    Triple-bind _ _ (any-query w _ state_corrupt _ (untouched w) (file-Triple w w.policy refl))
      (λ p. record { at = λ env q. (policy-Triple w p q.0.0 q.0.1).at env q.1 })

-- Whatever commands fail, `disable` says what it has done and why. "disabled": the policy was on and
-- the settings were its own; those that it had saved are back, it is switched off and the server is
-- stopped. SELECTIVE_DISABLE_PARTIAL: the same held before, and the way back, which is the URL, the
-- mode, the policy and the server in this order, has stopped before one of them, with nothing else
-- changed. Otherwise nothing at all has changed: "already-disabled" where the policy is off,
-- settings drift where it is on and the settings are not its own, an invalid state where they are and
-- what it has saved is missing, of an unknown mode or with a URL of over 4096 characters, or an
-- exception.
pub disable_outcomes :
    (env : Env World)
    → Ends (λ r env'. Disables env.now r env'.now) (λ e env'. env'.now ≡ env.now) (disable env)
disable_outcomes env = (disable-Triple env.now).at env (record { world = refl })
