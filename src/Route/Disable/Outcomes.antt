-- ===== src/Route/Disable/Outcomes.antt =====
-- What `disable` of the Windows tunnel has done, by what it returned.
use free_net_hub.Prelude.{
  ◌≡◌, refl, sym, Bool, true, false, not, ◌&&◌, ◌||◌, Option, none, some, if◌then◌else◌,
}
use free_net_hub.Prelude.Exec.{pure, raise_when, ◌>>=◌, ◌>>◌}
use free_net_hub.Prelude.Faults.{Env, Triple, Ends}
use free_net_hub.Prelude.Faults.Rules.{
  Triple-bind, Triple-except, Triple-pure, Triple-raise, Triple-if, Triple-mono, attempt-Always,
}
use free_net_hub.Prelude.Faults.Run.{run-test}
use free_net_hub.Prelude.Faults.Anyhow.{Now, any-attempt, any-query}
use free_net_hub.Prelude.{and-eq_true}
use free_net_hub.Route.Registry.{
  Settings, State, StateFile, absent, corrupt, stored, no_state, World, Fault, state_corrupt,
  restore_unverified, write_failed, state_of, load_state, write_state, snapshot, eq_settings,
  active_registry, stop_service,
}
use free_net_hub.Route.Disable.{
  Disabled, already_disabled, server_still_active, proxy_drift, restore_incomplete, cleaned_up,
  restored, eq_saved, switched_off, clean_up, undo, disable_active, disable,
}
use free_net_hub.Route.Registry.Commands.{
  Kept, K, stop-Kept, Now-Kept, snapshot-Now, StateKept, with_settings, restore-none, restore-Now,
  notify-Now, IsOurs,
}

-- The settings that the state had saved are back, and the state is switched off.
pub record IsRestored (w s : World) : Type 0 where
  pub old : State
  pub saved : Settings
  pub found : w.state ≡ stored old
  pub ours : IsOurs w old
  pub had : old.previous ≡ some saved
  pub settings : s.settings ≡ saved
  pub state : s.state ≡ stored (switched_off old)

-- The state is switched off; the registry was not ours to change.
pub record IsCleaned (w s : World) : Type 0 where
  pub old : State
  pub found : w.state ≡ stored old
  pub pending : old.in_flight ≡ true
  pub settings : s.settings ≡ w.settings
  pub state : s.state ≡ stored (switched_off old)

-- The settings were ours to change, and the state still has what there is to go back to.
pub record IsPending (w s : World) : Type 0 where
  pub old : State
  pub found : w.state ≡ stored old
  pub ours : IsOurs w old
  pub state : s.state ≡ w.state

abbrev pub Disables : World → Disabled → World → Type 0
Disables w already_disabled s = Kept w s
Disables w server_still_active s = Kept w s
Disables w proxy_drift s = Kept w s
Disables w restore_incomplete s = IsPending w s
Disables w cleaned_up s = IsCleaned w s
Disables w (restored b) s = IsRestored w s

abbrev Finishes : World → Disabled → Env World → Type 0
Finishes w r env = Disables w r env.now

abbrev Raises : World → Fault → Env World → Type 0
Raises w e env = Kept w env.now

is_on : (b : Bool) → not b ≡ false → b ≡ true
is_on true h = refl
is_on false h = cc

kept : (w : World) (env : Env World) → Now w env → Kept w env.now
kept w env n = rw n.world (refl, refl)

module _ (w : World) (st : State) (found : w.state ≡ stored st) (ours : IsOurs w st) where
  undone-Triple :
      (sv : Settings)
      → st.previous ≡ some sv
      → (let w2 = with_settings w sv in
          Triple
            (K (record w2 { state = stored (switched_off st) }))
            (do stopped ← stop_service st.server_token; pure (restored stopped))
            (Finishes w)
            (StateKept w))
  undone-Triple sv had =
      Triple-bind _ _
        (stop-Kept (record (with_settings w sv) { state = stored (switched_off st) })
          st.server_token)
        (λ stopped. Triple-pure (restored stopped) (λ env h. record {
          old = st;
          saved = sv;
          found = found;
          ours = ours;
          had = had;
          settings = h.holds.0;
          state = h.holds.1;
        }))

  verified-Triple :
      (sv : Settings)
      → st.previous ≡ some sv
      → (now : Settings)
      → Triple
          (Now (with_settings w sv))
          (do
            raise_when (not (eq_saved now (some sv))) restore_unverified
            write_state (switched_off st)
            stopped ← stop_service st.server_token
            pure (restored stopped))
          (Finishes w)
          (StateKept w)
  unfolding write_state
  verified-Triple sv had now =
      run-test (not (eq_saved now (some sv))) restore_unverified _ (λ env n. rw n.world refl)
        (λ _.
          any-attempt (with_settings w sv) _ write_failed _ (λ env n. rw n.world refl)
            (Triple-mono _ (λ env n. Now-Kept _ env n) (λ _ _ h. h) (λ _ _ h. h)
              (undone-Triple sv had)))

  undo_from-Triple :
      (previous : Option Settings)
      → st.previous ≡ previous
      → Triple (Now w) (undo st) (Finishes w) (StateKept w)
  unfolding undo
  undo_from-Triple none e =
      rw e (Triple-bind _ _ (restore-none w) (λ _. record { at = λ env bad. absurd bad }))
  undo_from-Triple (some sv) e =
      let w2 : World = with_settings w sv in
      rw e (
        Triple-bind _ _ (restore-Now w sv) (λ _. Triple-bind _ _ (notify-Now w2 sv) (λ _.
          Triple-bind _ _ (snapshot-Now w2 (λ _ env n. rw n.world refl))
            (λ now. record { at = λ env q. (verified-Triple sv e now).at env q.1 }))))

  undo-Triple : Triple (Now w) (undo st) (Finishes w) (StateKept w)
  undo-Triple = undo_from-Triple st.previous refl

module _ (w : World) (st : State) (found : w.state ≡ stored st) where
  clean_up-Triple : st.in_flight ≡ true → Triple (Now w) (clean_up st) (Finishes w) (Raises w)
  unfolding clean_up write_state
  clean_up-Triple pending =
      Triple-bind _ _
        (Triple-mono _ (Now-Kept w) (λ _ _ h. h) (λ _ _ h. h)
          (stop-Kept w {R = Raises w} st.server_token))
        (λ stopped.
          Triple-if (not stopped) _ _ (λ _. Triple-pure server_still_active (λ env h. h.holds))
            (λ _.
              Triple-bind _ _
                (Triple-mono {R' = Raises w} _ (λ env h. h) (λ _ _ h. h) (λ _ _ h. h.holds)
                  (attempt-Always {P = Kept w}
                    {Q = λ s. (s.settings ≡ w.settings) × (s.state ≡ stored (switched_off st))}
                    (λ s. record s { state = stored (switched_off st) }) write_failed
                    (λ s h. (h.0, refl))))
                (λ _. Triple-pure cleaned_up (λ env h. record {
                  old = st;
                  found = found;
                  pending = pending;
                  settings = h.holds.0;
                  state = h.holds.1;
                }))))

  IsOurs-eq_settings :
      (active : Settings)
      → active ≡ w.settings
      → not (eq_settings active (active_registry st.pac_url)) ≡ false
      → IsOurs w st
  IsOurs-eq_settings active e h = is_on _ (rw (sym e) h)

  disable_active-Triple :
      (active : Settings)
      → active ≡ w.settings
      → Triple (Now w) (disable_active st active) (Finishes w) (Raises w)
  unfolding disable_active
  disable_active-Triple active e =
      Triple-if (st.in_flight && eq_saved active st.previous) _ _
        (λ pending. clean_up-Triple ((and-eq_true st.in_flight _ pending).0))
        (λ _.
          Triple-if _ _ _ (λ _. Triple-pure proxy_drift (kept w))
            (λ same.
              Triple-except _ _ (undo-Triple w st found (IsOurs-eq_settings active e same)) (λ _.
                Triple-pure restore_incomplete (λ env f. record {
                  old = st;
                  found = found;
                  ours = IsOurs-eq_settings active e same;
                  state = f;
                }))))

  active-Triple :
      Triple (Now w) (do active ← snapshot; disable_active st active) (Finishes w) (Raises w)
  active-Triple =
      Triple-bind _ _ (snapshot-Now w (λ _. kept w))
        (λ active. record { at = λ env q. (disable_active-Triple active q.0).at env q.1 })

state-Triple :
    (w : World) (st : State)
    → (st.enabled || st.in_flight ≡ true → w.state ≡ stored st)
    → Triple
        (Now w)
        (if not (st.enabled || st.in_flight)
          then pure already_disabled
          else (do active ← snapshot; disable_active st active))
        (Finishes w)
        (Raises w)
state-Triple w st found =
    Triple-if _ _ _ (λ _. Triple-pure already_disabled (kept w))
      (λ on. active-Triple w st (found (is_on (st.enabled || st.in_flight) on)))

file-Triple :
    (w : World) (file : StateFile)
    → w.state ≡ file
    → Triple
        (Now w)
        (state_of file)
        (λ st env. (st.enabled || st.in_flight ≡ true → w.state ≡ stored st) × Now w env)
        (Raises w)
file-Triple w absent e = Triple-pure no_state (λ env n. (λ on. cc, n))
file-Triple w corrupt e = Triple-raise state_corrupt (kept w)
file-Triple w (stored st) e = Triple-pure st (λ env n. (λ on. e, n))

disable-Triple : (w : World) → Triple (Now w) disable (Finishes w) (Raises w)
unfolding disable load_state
disable-Triple w =
    Triple-bind _ _ (any-query w _ state_corrupt _ (kept w) (file-Triple w w.state refl))
      (λ st. record { at = λ env q. (state-Triple w st q.0).at env q.1 })

-- Whatever commands fail: if `disable` says that it has restored the settings, the registry had the
-- values that the tunnel sets, it has now those that the state had saved, and the state is switched
-- off. If it has only cleaned up, the settings are as they were and the state, which was in flight,
-- is switched off. If it refuses or raises, it has changed neither the settings nor the state. After
-- SELECTIVE_WINDOWS_RESTORE_INCOMPLETE the registry had the values that the tunnel sets, and the
-- state is as it was, with what there is to go back to.
pub disable-Disables :
    (env : Env World)
    → Ends (λ r env'. Disables env.now r env'.now) (λ e env'. Kept env.now env'.now) (disable env)
disable-Disables env = (disable-Triple env.now).at env (record { world = refl })
