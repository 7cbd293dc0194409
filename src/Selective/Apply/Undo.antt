-- ===== src/Selective/Apply/Undo.antt =====
-- The way back of `apply`: with no further fault it restores all that it has to.
use free_net_hub.Prelude.{◌≡◌, refl, Bool, true, false, not, Option, none, some, if◌then◌else◌}
use free_net_hub.Prelude.Exec.{pure, ◌>>◌}
use free_net_hub.Prelude.Faults.{Env, Triple}
use free_net_hub.Prelude.Faults.Rules.{
  Triple-bind, Triple-except, Triple-pure, Triple-raise, Triple-mono,
}
use free_net_hub.Prelude.Faults.Run.{CalmAt, calm-attempt, calm-attempt_last, calm-query, calm-look}
use free_net_hub.Text.{Text, eq_text}
use free_net_hub.Text.Affix.{eq_text_iff}
use free_net_hub.Selective.World.{
  World, Fault, command_failed, write_failed, M, get_url, set_mode, set_url, write_pac, remove_pac,
  remove_unit, daemon_reload, disable_service,
}
use free_net_hub.Selective.Apply.{
  Old, when, quietly, undo, undo_settings, undo_url, undo_pac, undo_unit,
}

-- The world with the settings back, and then with all back.
abbrev settled : Old → World → World
settled old w = if w.changed_proxy then record w { url = old.url; mode = old.mode } else w

abbrev pub reverted : Old → World → World
reverted old w = record (settled old w) {
  pac = old.pac;
  unit = if old.created_service then none else (settled old w).unit;
  running = if old.enabled then (settled old w).running else false;
}

Calms : World → M Unit → World → Type 0
Calms w m w' = Triple (CalmAt w) m (λ _. CalmAt w') (λ _ _. ⊥)

quietly-Calms : (w w' : World) (m : M Unit) → Calms w m w' → Calms w (quietly m) w'
unfolding Calms
quietly-Calms w w' m h = Triple-except m (λ e. pure tt) h (λ e. record { at = λ env p. absurd p })

skip-Calms : (w : World) → Calms w (pure tt) w
unfolding Calms
skip-Calms w = Triple-pure tt (λ s p. p)

when-Calms :
    (b : Bool) (w w' : World) (m : M Unit)
    → (b ≡ true → Calms w m w')
    → Calms w (when b m) (if b then w' else w)
when-Calms true w w' m h = h refl
when-Calms false w w' m h = skip-Calms w

when-true-Calms :
    (b : Bool) (w w' : World) (m : M Unit) → b ≡ true → Calms w m w' → Calms w (when b m) w'
when-true-Calms true w w' m e h = h
when-true-Calms false w w' m e h = cc

undo_url-Calms :
    (old : Old) (new_url : Text) (w : World)
    → w.url ≡ new_url
    → Calms w (undo_url old new_url) (record w { url = old.url; mode = old.mode })
unfolding Calms undo_url get_url
undo_url-Calms old new_url w h =
    calm-query w (λ w. w.url) command_failed _
      (when-true-Calms (eq_text w.url new_url) w (record w { url = old.url; mode = old.mode })
        (quietly (do set_url old.url; set_mode old.mode)) ((eq_text_iff w.url new_url).1 h)
        (quietly-Calms w (record w { url = old.url; mode = old.mode })
          (do set_url old.url; set_mode old.mode)
          (unfold set_url set_mode in
            calm-attempt w _ command_failed _
              (calm-attempt_last (record w { url = old.url }) _ command_failed))))

undo_settings-Calms :
    (old : Old) (new_url : Text) (w : World)
    → (w.changed_proxy ≡ true → w.url ≡ new_url)
    → Calms w (undo_settings old new_url) (settled old w)
unfolding Calms undo_settings
undo_settings-Calms old new_url w h =
    calm-look w (λ w. w.changed_proxy) _
      (when-Calms w.changed_proxy w (record w { url = old.url; mode = old.mode })
        (undo_url old new_url) (λ moved. undo_url-Calms old new_url w (h moved)))

undo_pac-Calms : (old : Option Text) (w : World) → Calms w (undo_pac old) (record w { pac = old })
unfolding Calms undo_pac write_pac remove_pac
undo_pac-Calms none w = calm-attempt_last w _ write_failed
undo_pac-Calms (some content) w = calm-attempt_last w _ write_failed

disable-Calms :
    (enabled : Bool) (w : World)
    → Calms w
        (when (not enabled) (quietly disable_service))
        (record w { running = if enabled then w.running else false })
unfolding Calms
disable-Calms true w = skip-Calms w
disable-Calms false w =
    quietly-Calms w (record w { running = false }) disable_service
      (unfold disable_service in calm-attempt_last w _ command_failed)

undo_unit-Calms :
    (created : Bool) (w : World)
    → Calms w (undo_unit created) (record w { unit = if created then none else w.unit })
unfolding Calms undo_unit
undo_unit-Calms false w = skip-Calms w
undo_unit-Calms true w =
    unfold remove_unit in
    calm-attempt w _ write_failed _ (
      quietly-Calms (record w { unit = none }) (record w { unit = none }) daemon_reload
        (unfold daemon_reload in calm-attempt_last (record w { unit = none }) _ command_failed))

then-Calms :
    (w w' : World) (m : M Unit) (k : M Unit) (R : Fault → Env World → Type 0)
    → Calms w m w'
    → Triple (CalmAt w') k (λ _ _. ⊥) R
    → Triple (CalmAt w) (m >> k) (λ _ _. ⊥) R
unfolding Calms
then-Calms w w' m k R h t =
    Triple-bind m (λ _. k) (Triple-mono m (λ s p. p) (λ a s q. q) (λ e s r. absurd r) h) (λ _. t)

-- Without a further fault the handler ends with the exception, in the reverted world.
pub undo-reverts :
    (old : Old) (new_url : Text) (e : Fault) (w : World)
    → (w.changed_proxy ≡ true → w.url ≡ new_url)
    → Triple
        (CalmAt w)
        (undo old new_url e)
        (λ _ _. ⊥)
        (λ e' env. (e' ≡ e) × (env.now ≡ reverted old w))
unfolding undo
undo-reverts old new_url e w h =
    let w1 : World = settled old w in
    let w2 : World = record w1 { pac = old.pac } in
    let w3 : World = record w2 { running = if old.enabled then w2.running else false } in
    let w4 : World = record w3 { unit = if old.created_service then none else w3.unit } in
    then-Calms w w1 _ _ _ (undo_settings-Calms old new_url w h) (
      then-Calms w1 w2 _ _ _ (undo_pac-Calms old.pac w1) (
        then-Calms w2 w3 _ _ _ (disable-Calms old.enabled w2) (
          then-Calms w3 w4 _ _ _ (undo_unit-Calms old.created_service w3)
            (Triple-raise e (λ env p. (refl, p.world))))))
