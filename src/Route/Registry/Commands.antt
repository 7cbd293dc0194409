-- ===== src/Route/Registry/Commands.antt =====
-- Rules for the commands on the registry and the service of the Windows tunnel.
use free_net_hub.Prelude.{
  ℕ, zero, suc, ◌≡◌, refl, ap, Bool, true, false, not, ◌||◌, none, some, List, [], ◌∷◌,
}
use free_net_hub.Prelude.Faults.{Env, Triple, Ends, Always, attempt, poll}
use free_net_hub.Prelude.Faults.Rules.{
  Triple-bind, Triple-except, Triple-pure, Triple-raise, Triple-if, Triple-mono, attempt-Always,
}
use free_net_hub.Prelude.Faults.Run.{run-test}
use free_net_hub.Prelude.Faults.Anyhow.{Now, any-attempt, any-query}
use free_net_hub.Text.{Text}
use free_net_hub.Route.Registry.{
  Settings, State, World, Fault, registry_failed, value_unsupported, snapshot_invalid,
  refresh_unverified, snapshot, is_unsupported, write_auto_config, write_proxy_enable, restore,
  notify, eq_settings, active_registry, answers_to, health, shut_down, wait_stopped, stop_service,
}

-- The registry and the state file are as they were.
abbrev pub Kept : World → World → Type 0
Kept w s = (s.settings ≡ w.settings) × (s.state ≡ w.state)

module _ {P : World → Type 0} {R : Fault → Env World → Type 0} where
  health-Always : (token : Text) → Triple (Always P) (health token) (λ _. Always P) R
  unfolding health poll
  health-Always token = record { at = λ env h. go env.faults env.now h.holds }
    where
      go :
          (fs : List Bool) (s : World)
          → P s
          → Ends (λ _. Always P) R (poll (answers_to token) record { faults = fs; now = s })
      go [] s h = record { holds = h }
      go (true ∷ fs) s h = record { holds = h }
      go (false ∷ fs) s h = record { holds = h }

module _ (w : World) where
  abbrev pub K : Env World → Type 0
  K = Always (Kept w)

  wait-Kept :
      {R : Fault → Env World → Type 0} (n : ℕ) (token : Text)
      → Triple K (wait_stopped n token) (λ _. K) R
  unfolding wait_stopped
  wait-Kept zero token = Triple-pure false (λ s h. h)
  wait-Kept (suc n) token = Triple-bind _ _ (health-Always token) (λ up.
      Triple-bind _ _
        (Triple-if up _ _ (λ _. Triple-pure true (λ s h. h)) (λ _. health-Always token))
        (λ bridge.
          Triple-if bridge _ _ (λ _. wait-Kept n token) (λ _. Triple-pure true (λ s h. h))))

  shut_down-Kept : (token : Text) → Triple K (shut_down token) (λ _. K) (λ _. K)
  unfolding shut_down
  shut_down-Kept token = Triple-bind _ _ (health-Always token) (λ accepted.
      Triple-if accepted _ _
        (λ _.
          Triple-bind _ _
            (attempt-Always (λ s. record s { running = false }) registry_failed (λ s h. h))
            (λ _. Triple-pure true (λ s h. h)))
        (λ _. Triple-pure false (λ s h. h)))

  pub stop-Kept :
      {R : Fault → Env World → Type 0} (token : Text) → Triple K (stop_service token) (λ _. K) R
  unfolding stop_service
  stop-Kept token = Triple-bind _ _ (health-Always token) (λ up.
      Triple-if up _ _
        (λ _.
          Triple-except _ _
            (Triple-bind _ _ (shut_down-Kept token) (λ accepted.
              Triple-if accepted _ _ (λ _. wait-Kept 30 token) (λ _. Triple-pure false (λ s h. h))))
            (λ e. Triple-pure false (λ s h. h)))
        (λ _.
          Triple-bind _ _ (health-Always token) (λ bridge. Triple-pure (not bridge) (λ s h. h))))

  pub Now-Kept : (env : Env World) → Now w env → K env
  Now-Kept env n = record { holds = rw n.world (refl, refl) }

  pub snapshot-Now :
      {R : Fault → Env World → Type 0}
      → ((e : Fault) (env : Env World) → Now w env → R e env)
      → Triple (Now w) snapshot (λ a env. (a ≡ w.settings) × Now w env) R
  unfolding snapshot
  snapshot-Now k = any-query w _ registry_failed _ (k registry_failed) (
      run-test (is_unsupported w.settings.auto_config) value_unsupported _ (k value_unsupported)
        (λ _. any-query w _ registry_failed _ (k registry_failed) (
          run-test (is_unsupported w.settings.proxy_enable) value_unsupported _
            (k value_unsupported) (λ _. Triple-pure w.settings (λ env n. (refl, n))))))

  attempt-Now :
      {R : Fault → Env World → Type 0} (f : World → World) (e : Fault)
      → ((e : Fault) (env : Env World) → Now w env → R e env)
      → Triple (Now w) (attempt f e) (λ _. Now (f w)) R
  attempt-Now f e k =
      Triple-mono (attempt f e) (λ env n. record { holds = n.world })
        (λ _ env h. record { world = h.holds }) (λ e' env h. k e' env record { world = h.holds })
        (attempt-Always {P = λ s. s ≡ w} {Q = λ s. s ≡ f w} f e (λ s h. ap f h))

-- What is known where a run stops: the state file is as it was.
abbrev pub StateKept : World → Fault → Env World → Type 0
StateKept w e env = env.now.state ≡ w.state

-- The world with the settings that were saved.
abbrev pub with_settings : World → Settings → World
with_settings w sv = record w { settings = sv }

pub restore-none : (w : World) → Triple (Now w) (restore none) (λ _ _. ⊥) (StateKept w)
unfolding restore
restore-none w = Triple-raise snapshot_invalid (λ env n. rw n.world refl)

module _ (w : World) (sv : Settings) where
  pub restore-Now : Triple (Now w) (restore (some sv)) (λ _. Now (with_settings w sv)) (StateKept w)
  unfolding restore write_auto_config write_proxy_enable
  restore-Now =
      let w1 : World = record w {
        settings = record (w.settings) { auto_config = sv.auto_config };
      } in
      run-test (is_unsupported sv.auto_config || is_unsupported sv.proxy_enable) snapshot_invalid _
        (λ env n. rw n.world refl)
        (λ _.
          any-attempt w _ registry_failed _ (λ env n. rw n.world refl)
            (attempt-Now w1 _ registry_failed (λ e env n. rw n.world refl)))

  pub notify-Now : Triple (Now w) notify (λ _. Now w) (StateKept w)
  unfolding notify
  notify-Now =
      any-attempt w _ refresh_unverified _ (λ env n. rw n.world refl)
        (attempt-Now w (λ s. s) refresh_unverified (λ e env n. rw n.world refl))

-- The registry has the two values that `enable` sets for this state.
abbrev pub IsOurs : World → State → Type 0
IsOurs w st = eq_settings w.settings (active_registry st.pac_url) ≡ true
