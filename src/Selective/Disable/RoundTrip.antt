-- ===== src/Selective/Disable/RoundTrip.antt =====
-- `apply`, then `disable`.
use mathlib.Core.Path.{subst}
use free_net_hub.Prelude.{
  ℕ, ◌≤◌, ◌≡◌, refl, sym, Bool, true, false, not, ◌&&◌, ◌||◌, Option, some, List, arith, ltb,
  length, le→leb, Bool-cases, inl, inr, if◌then◌else◌, Untyped, ok,
}
use free_net_hub.Prelude.Exec.{pure}
use free_net_hub.Prelude.Faults.{Env, OneFault, Calm, Triple, Ends}
use free_net_hub.Prelude.Faults.Rules.{Triple-bind, Triple-except, Triple-pure}
use free_net_hub.Prelude.Faults.Run.{CalmAt, calm-attempt, calm-query, run-guard}
use free_net_hub.Text.{Text, eq_text}
use free_net_hub.Text.Affix.{eq_text_refl}
use free_net_hub.Selective.World.{
  World, Mode, off, auto, manual, unknown, Saved, Policy, stored, state_corrupt, command_failed,
  write_failed, rollback_unverified, Host, get_mode, get_url, set_mode, set_url, write_policy,
  read_policy, disable_service, eq_mode, pac_url,
}
use free_net_hub.Selective.Arguments.{Wanted, check_arguments, restore_point, known_mode, is_ours}
use free_net_hub.Selective.Apply.{enabled, apply, new_policy}
use free_net_hub.Selective.Apply.Change.{Applies, SameOutside, policy_of}
use free_net_hub.Selective.Apply.Atomic.{apply_atomic}
use free_net_hub.Selective.Disable.{
  disabled, switched_off, restore, restore_from, disable_url, disable_bound, disable, eq_stored,
  already_disabled,
}

pub eq_mode_refl : (m : Mode) → eq_mode m m ≡ true
eq_mode_refl off = refl
eq_mode_refl auto = refl
eq_mode_refl manual = refl
eq_mode_refl (unknown m) = eq_text_refl m

-- The two settings are those saved, the policy is off, and the server is stopped.
pub record IsBack (s : Saved) (w : World) : Type 0 where
  pub mode : w.mode ≡ s.mode
  pub url : w.url ≡ s.url
  pub stopped : w.running ≡ false
  pub policy : (q : Policy) × (w.policy ≡ stored q) × (q.enabled ≡ false)

module _ (w : World) (p : Policy) (s : Saved) where
  restore-calm :
      Triple (CalmAt w) (restore p s) (λ r env. (r ≡ disabled) × IsBack s env.now) (λ _ _. ⊥)
  unfolding restore switched_off set_url set_mode get_mode get_url write_policy disable_service
  restore-calm =
      let w1 : World = record w { url = s.url } in
      let w2 : World = record w1 { mode = s.mode } in
      let w3 : World = record w2 { policy = stored (switched_off p) } in
      calm-attempt w _ command_failed _ (
        calm-attempt w1 _ command_failed _ (
          calm-query w2 _ command_failed _ (
            run-guard (not (eq_mode s.mode s.mode)) rollback_unverified _
              (rw (eq_mode_refl s.mode) refl)
              (calm-query w2 _ command_failed _ (
                run-guard (not (eq_text s.url s.url)) rollback_unverified _
                  (rw (eq_text_refl s.url) refl)
                  (calm-attempt w2 _ write_failed _ (
                    calm-attempt w3 _ command_failed _ (
                      Triple-pure disabled (λ env c. (
                        refl,
                        rw c.world (record {
                          mode = refl;
                          url = refl;
                          stopped = refl;
                          policy = (switched_off p, refl, refl);
                        }),
                      ))))))))))

module _ (w : World) (p : Policy) (s : Saved) (known : known_mode s.mode ≡ true)
    (fits : length s.url ≤ 4096) where
  restore_some :
      Triple
        (CalmAt w)
        (restore_from p (some s))
        (λ r env. (r ≡ disabled) × IsBack s env.now)
        (λ _ _. ⊥)
  unfolding restore_from
  restore_some =
      rw (known, le→leb (length s.url) 4096 fits)
        (Triple-except _ _ (restore-calm w p s) (λ e. record { at = λ env f. absurd f }))

  restore_from-calm :
      (previous : Option Saved)
      → previous ≡ some s
      → Triple
          (CalmAt w)
          (restore_from p previous)
          (λ r env. (r ≡ disabled) × IsBack s env.now)
          (λ _ _. ⊥)
  restore_from-calm previous e =
      subst
        (λ o.
          Triple (CalmAt w) (restore_from p o) (λ r env. (r ≡ disabled) × IsBack s env.now)
            (λ _ _. ⊥))
        (sym e) restore_some

-- An enabled world whose policy has `s` to go back to and `url` as its PAC address.
module _ (w : World) (p : Policy) (s : Saved) (url : Text) (policy : w.policy ≡ stored p)
    (on : p.enabled ≡ true) (saved : p.previous ≡ some s) (ours : p.pac_url ≡ some url)
    (mode : w.mode ≡ auto) (address : w.url ≡ url) (known : known_mode s.mode ≡ true)
    (fits : length s.url ≤ 4096) where
  test : eq_stored w.url p.pac_url ≡ true
  test = rw (ours, address) (eq_text_refl url)

  disable_url-calm :
      Triple (CalmAt w) (disable_url p) (λ r env. (r ≡ disabled) × IsBack s env.now) (λ _ _. ⊥)
  unfolding disable_url get_url
  disable_url-calm =
      calm-query w _ command_failed _
        (simp (test) (restore_from-calm w p s known fits p.previous saved))

  mode_test : eq_mode w.mode auto ≡ true
  mode_test = rw mode refl

  disable_bound-calm :
      Triple (CalmAt w) (disable_bound p) (λ r env. (r ≡ disabled) × IsBack s env.now) (λ _ _. ⊥)
  unfolding disable_bound get_mode
  disable_bound-calm = calm-query w _ command_failed _ (simp (mode_test) disable_url-calm)

  reads : Triple (CalmAt w) read_policy (λ q env. (q ≡ p) × CalmAt w env) (λ _ _. ⊥)
  unfolding read_policy
  reads = calm-query w _ state_corrupt _ (rw policy (Triple-pure p (λ env c. (refl, c))))

  enabled_test :
      Triple
        (CalmAt w)
        (if p.enabled then disable_bound p else pure already_disabled)
        (λ r env. (r ≡ disabled) × IsBack s env.now)
        (λ _ _. ⊥)
  enabled_test = simp (on) disable_bound-calm

  disable-calm : Triple (CalmAt w) disable (λ r env. (r ≡ disabled) × IsBack s env.now) (λ _ _. ⊥)
  unfolding disable
  disable-calm = Triple-bind _ _ reads (λ q. record {
    at = λ env h.
        subst
          (λ q.
            Ends (λ r env. (r ≡ disabled) × IsBack s env.now) (λ _ _. ⊥)
              ((if q.enabled then disable_bound q else pure already_disabled) env))
          (sym h.0) (enabled_test.at env h.1);
  })

-- What a policy that is off has `apply` save: the settings as they are.
restore_point-off :
    (p : Policy) (mode : Mode) (url : Text) (s : Saved)
    → p.enabled ≡ false
    → restore_point p mode url ≡ ok s
    → record { mode = mode; url = url } ≡ s
unfolding restore_point
restore_point-off p mode url s off_ =
    rw off_ (elim (Bool-cases (eq_mode mode auto && is_ours url)) [
      | inl foreign ↦ rw foreign (λ e. cc)
      | inr good ↦ rw good (λ e. cc)
    ])

known_fits :
    (known : Bool) (n : ℕ) → (not known || ltb 4096 n) ≡ false → (known ≡ true) × (n ≤ 4096)
known_fits true n e = (refl, ground (arith, e))
known_fits false n e = cc

-- `disable` in the world that `apply` has left, if `apply` has changed it.
after_apply :
    (h : Host) (x : Wanted) (before w : World) (p0 : Policy) (fs : List Bool)
    → policy_of before.policy ≡ some p0
    → p0.enabled ≡ false
    → Applies h x before enabled w
    → Calm fs
    → Ends
        (λ r env. (r ≡ disabled) × IsBack (record { mode = before.mode; url = before.url }) env.now)
        (λ _ _. ⊥)
        (disable (record { faults = fs; now = w }))
unfolding restore_point new_policy
after_apply h x before w p0 fs found off_ (p, s, found', back, fits, ends) calm =
    let same : p0 ≡ p = cc (found, found') in
    let saved : record { mode = before.mode; url = before.url } ≡ s =
      restore_point-off p before.mode before.url s (rw (← same) off_) back in
    let (known, short) = known_fits (known_mode before.mode) (length before.url) fits in
    subst
      (λ s'.
        Ends (λ r env. (r ≡ disabled) × IsBack s' env.now) (λ _ _. ⊥)
          (disable (record { faults = fs; now = w })))
      (sym saved)
      ((disable-calm w (new_policy h x s) s (pac_url h x.content) ends.policy refl refl refl
          ends.mode ends.url (rw (← saved) known) (rw (← saved) short)).at
        (record { faults = fs; now = w }) (record { world = refl; calm = calm }))

-- `apply` and then `disable`, when no policy was enabled before: the settings are those that were
-- there before `apply`, the policy is off, and the server is stopped. `apply` may meet one failing
-- command, and has returned "enabled"; the commands of `disable` succeed.
pub apply-disable_round_trip :
    (h : Host) (given : Untyped Text) (port : Untyped ℕ) (method : Text) (env env' : Env World)
    (p : Policy) (fs : List Bool)
    → OneFault env.faults
    → policy_of env.now.policy ≡ some p
    → p.enabled ≡ false
    → apply h given port method env ≡ (ok enabled, env')
    → Calm fs
    → Ends
        (λ r last.
          (r ≡ disabled) × IsBack (record { mode = env.now.mode; url = env.now.url }) last.now)
        (λ _ _. ⊥)
        (disable (record { faults = fs; now = env'.now }))
apply-disable_round_trip h given port method env env' p fs one found off_ applied calm =
    let (x, _, done) =
      subst
        (Ends
          (λ r env'.
            (x : Wanted) × (check_arguments h given port method ≡ ok x)
            × Applies h x env.now r env'.now)
          (λ e env'. SameOutside env.now env'.now))
        applied (apply_atomic h given port method env one) in
    after_apply h x env.now env'.now p fs found off_ done calm
