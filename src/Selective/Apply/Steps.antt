-- ===== src/Selective/Apply/Steps.antt =====
-- The body of the `try` of `apply`: where it ends, and what it leaves if a command fails.
use free_net_hub.Prelude.{
  ℕ, suc, ◌≤◌, ◌≡◌, refl, Bool, true, false, not, some, List, [], ◌∷◌, take_all, length,
  if◌then◌else◌,
}
use free_net_hub.Prelude.Exec.{pure, ◌>>=◌}
use free_net_hub.Prelude.Faults.{Env, poll, OneFault, Calm, Triple, Ends}
use free_net_hub.Prelude.Faults.Rules.{calm_one}
use free_net_hub.Prelude.Faults.Run.{
  At, CalmAt, Yields, run-attempt, run-attempt_last, run-assign, run-query, run-Yields, run-guard,
  run-pure, run-pure,
}
use free_net_hub.Text.{Text, eq_text}
use free_net_hub.Text.Affix.{eq_text_refl}
use free_net_hub.Selective.World.{
  World, auto, stored, Saved, command_failed, write_failed, pac_server_not_ready, apply_unverified,
  Host, M, get_url, get_mode, set_mode, set_url, write_pac, write_unit, write_policy, daemon_reload,
  enable_service, pac_online, served, pac_url,
}
use free_net_hub.Selective.Arguments.{Wanted}
use free_net_hub.Selective.Apply.{wait_online, install, publish, new_policy}

-- What the handler can put right: the policy is as it was, and so are the unit, unless it was
-- created, and the settings, unless their move is noted.
pub record IsUndoable (before : World) (new_url : Text) (created : Bool) (w : World) : Type 0 where
  pub policy : w.policy ≡ before.policy
  pub unit : created ≡ false → w.unit ≡ before.unit
  pub moved : w.changed_proxy ≡ true → w.url ≡ new_url
  pub url : w.changed_proxy ≡ false → w.url ≡ before.url
  pub mode : w.changed_proxy ≡ false → w.mode ≡ before.mode

pub record FailsUndoable (before : World) (new_url : Text) (created : Bool) (env : Env World)
    : Type 0 where
  pub calm : Calm env.faults
  pub undoable : IsUndoable before new_url created env.now

poll_up :
    (b : Bool) (m : M Bool) (w s : World) (fs : List Bool)
    → b ≡ true
    → s ≡ w
    → OneFault fs
    → Ends
        (λ x env. (x ≡ true) × At w env)
        (λ _ _. ⊥)
        ((if b then pure true else m) (record { faults = fs; now = s }))
unfolding pure
poll_up true m w s fs e p o = (refl, record { world = p; faulty = o })
poll_up false m w s fs e p o = cc

module _ (h : Host) (expected : Text) (w : World) (up : served h expected w ≡ true) where
  up_at : (s : World) → s ≡ w → served h expected s ≡ true
  up_at s p = rw p up

  second_poll :
      (fs : List Bool) (n : ℕ) (s : World)
      → s ≡ w
      → Calm fs
      → Ends
          (λ x env. (x ≡ true) × At w env)
          (λ _ _. ⊥)
          (wait_online h expected (suc n) (record { faults = fs; now = s }))
  unfolding wait_online pac_online poll ◌>>=◌
  second_poll [] n s p c = poll_up (served h expected s) _ w s [] (up_at s p) p tt
  second_poll (true ∷ fs) n s p c = cc
  second_poll (false ∷ fs) n s p c =
      poll_up (served h expected s) _ w s fs (up_at s p) p (calm_one fs c.1)

  first_poll :
      (fs : List Bool) (n : ℕ) (s : World)
      → s ≡ w
      → OneFault fs
      → Ends
          (λ x env. (x ≡ true) × At w env)
          (λ _ _. ⊥)
          (wait_online h expected (suc (suc n)) (record { faults = fs; now = s }))
  first_poll [] n s p c =
      unfold wait_online pac_online poll ◌>>=◌ in
      poll_up (served h expected s) _ w s [] (up_at s p) p tt
  first_poll (true ∷ fs) n s p c =
      let again : _ = second_poll fs n s p c in unfold wait_online pac_online poll ◌>>=◌ in again
  first_poll (false ∷ fs) n s p c =
      unfold wait_online pac_online poll ◌>>=◌ in
      poll_up (served h expected s) _ w s fs (up_at s p) p c

  -- A server that is up is seen to be up, though one poll may fail.
  pub wait_online-Yields : (n : ℕ) → Yields w (wait_online h expected (suc (suc n))) true
  wait_online-Yields n = record {
    gives = record { at = λ env p. first_poll env.faults n env.now p.world p.faulty };
  }

fails :
    (before : World) (new_url : Text) (created : Bool) (w : World)
    → IsUndoable before new_url created w
    → (env : Env World) → CalmAt w env
    → FailsUndoable before new_url created env
fails before new_url created w u env c = record { calm = c.calm; undoable = rw c.world u }

served_published :
    (h : Host) (content : Text) (w : World)
    → length content ≤ 32768
    → served h content (record w { pac = some content; running = true }) ≡ true
unfolding served
served_published h content w short =
    rw (eq_text_refl (h.digest content), take_all 32768 content short, eq_text_refl content) refl

-- The world after `publish`.
abbrev published : Host → Wanted → Saved → World → World
published h x restore w = record {
  policy = stored (new_policy h x restore);
  pac = some x.content;
  unit = w.unit;
  running = true;
  mode = auto;
  url = pac_url h x.content;
  changed_proxy = true;
}

module _ (h : Host) (x : Wanted) (restore : Saved) (before : World) (created : Bool)
    (short : length x.content ≤ 32768) where
  publish-Triple :
      (w : World)
      → IsUndoable before (pac_url h x.content) created w
      → w.changed_proxy ≡ false
      → Triple
          (At w)
          (publish h x restore)
          (λ _. At (published h x restore w))
          (λ _. FailsUndoable before (pac_url h x.content) created)
  unfolding publish write_pac daemon_reload enable_service set_url set_mode get_url get_mode
      write_policy
  publish-Triple w u still =
      let new_url : Text = pac_url h x.content in
      let w1 : World = record w { pac = some x.content } in
      let u1 : IsUndoable before new_url created w1 = record {
        policy = u.policy;
        unit = u.unit;
        moved = u.moved;
        url = u.url;
        mode = u.mode;
      } in
      let w2 : World = record w1 { running = true } in
      let u2 : IsUndoable before new_url created w2 = record {
        policy = u.policy;
        unit = u.unit;
        moved = u.moved;
        url = u.url;
        mode = u.mode;
      } in
      let w3 : World = record w2 { url = new_url; changed_proxy = true } in
      let u3 : IsUndoable before new_url created w3 = record {
        policy = u.policy;
        unit = u.unit;
        moved = λ _. refl;
        url = λ e. cc;
        mode = λ e. cc;
      } in
      let w4 : World = record w3 { mode = auto } in
      let u4 : IsUndoable before new_url created w4 = record {
        policy = u.policy;
        unit = u.unit;
        moved = λ _. refl;
        url = λ e. cc;
        mode = λ e. cc;
      } in
      run-attempt w _ write_failed _ (fails before new_url created w u) (
        run-attempt w1 _ command_failed _ (fails before new_url created w1 u1) (
          run-attempt w1 _ command_failed _ (fails before new_url created w1 u1) (
            run-Yields w2 _ true _
              (wait_online-Yields h x.content w2 (served_published h x.content w short) 13)
              (run-guard false pac_server_not_ready _ refl (
                run-attempt w2 _ command_failed _ (fails before new_url created w2 u2) (
                  run-assign (record w2 { url = new_url }) _ _
                    (run-attempt w3 _ command_failed _ (fails before new_url created w3 u3) (
                      run-query w4 _ command_failed _ (fails before new_url created w4 u4) (
                        run-guard (not (eq_text new_url new_url)) apply_unverified _
                          (rw (eq_text_refl new_url) refl)
                          (run-query w4 _ command_failed _ (fails before new_url created w4 u4) (
                            run-guard false apply_unverified _ refl (
                              run-attempt_last w4 _ write_failed
                                (fails before new_url created w4 u4)))))))))))))

-- The world after the whole body.
abbrev pub installed : Host → Wanted → Saved → Text → Bool → World → World
installed h x restore unit created w =
    published h x restore (record w { unit = if created then some unit else w.unit })

module _ (h : Host) (x : Wanted) (restore : Saved) (unit : Text) (w : World)
    (short : length x.content ≤ 32768) (still : w.changed_proxy ≡ false) where
  -- With one fault at most the body ends where it should, or leaves what can be put right.
  pub install-Triple :
      (created : Bool)
      → Triple
          (At w)
          (install h x restore unit created)
          (λ _. At (installed h x restore unit created w))
          (λ _. FailsUndoable w (pac_url h x.content) created)
  unfolding install write_unit
  install-Triple true =
      run-attempt w _ write_failed _
        (fails w (pac_url h x.content) true w (record {
          policy = refl;
          unit = λ _. refl;
          moved = λ e. cc;
          url = λ _. refl;
          mode = λ _. refl;
        }))
        (publish-Triple h x restore w true short (record w { unit = some unit })
          (record {
            policy = refl;
            unit = λ e. cc;
            moved = λ e. cc;
            url = λ _. refl;
            mode = λ _. refl;
          })
          still)
  install-Triple false = run-pure tt _ (
      publish-Triple h x restore w false short w
        (record {
          policy = refl;
          unit = λ _. refl;
          moved = λ e. cc;
          url = λ _. refl;
          mode = λ _. refl;
        })
        still)
