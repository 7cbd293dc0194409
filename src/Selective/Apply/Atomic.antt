-- ===== src/Selective/Apply/Atomic.antt =====
-- `apply` as a transaction.
use free_net_hub.Prelude.{
  not, ◌||◌, ltb, ill_typed, raise_if, ◌≢◌, [], ℕ, ◌≤◌, ◌≡◌, refl, Bool, true, false, not, some,
  List, arith, length, Bool-cases, inl, inr, if◌then◌else◌, Result, ok, err, Untyped, typed,
  >>=-eq-ok,
}
use free_net_hub.Prelude.Exec.{pure}
use free_net_hub.Prelude.Faults.{Env, OneFault, Triple, Ends}
use free_net_hub.Prelude.Faults.Rules.{Triple-bind, Triple-pure, Triple-raise, Triple-mono}
use free_net_hub.Prelude.Faults.Run.{
  At, run-attempt, run-attempt_last, run-query, run-test, run-lift,
}
use free_net_hub.Prelude.Faults.Quiet.{Quiet, Quiet-if, Quiet-bind, Quiet-pure, run-Quiet}
use free_net_hub.Selective.Status.Reads.{status-Quiet}
use free_net_hub.Text.{Text}
use free_net_hub.Selective.World.{
  World, Saved, Policy, PolicyFile, absent, corrupt, stored, no_policy, rejected, method_invalid,
  state_corrupt, command_failed, baseline_invalid, proxy_unhealthy, Host, read_as, read_policy,
  get_mode, get_url,
}
use free_net_hub.Selective.Arguments.{
  known_mode, rejecting, is_int, methods, Wanted, check_arguments, restore_point,
}
use free_net_hub.Selective.Apply.{
  unchanged, probe, already_applied, change, apply_over, apply_checked, apply,
}
use free_net_hub.Text.{Tables, elem, upper}
use free_net_hub.Selective.Domains.{DomainError, parse_domains}
use free_net_hub.Selective.Domains.Canonical.{IsCanonical, parse_domains-IsCanonical}
use free_net_hub.Selective.Domains.Reparse.{parse_domains-canonical}
use free_net_hub.Selective.Pac.{
  PacError, pac_script, script, port_ok, port_of, from_domains, proxy_port_invalid,
}
use free_net_hub.Selective.Pac.Size.{length-script}
use free_net_hub.Selective.Apply.Change.{
  Applies, SameOutside, Unharmed, policy_of, At-same, calm_same, change-Triple,
}

module _ (h : Host) (x : Wanted) (short : length x.content ≤ 32768) where
  read_as-policy_of :
      (w : World) (file : PolicyFile)
      → file ≡ w.policy
      → Triple
          (At w)
          (read_as file)
          (λ p env. (policy_of w.policy ≡ some p) × At w env)
          (Unharmed w)
  read_as-policy_of w absent e = Triple-pure no_policy (λ env p. (rw (← e) refl, p))
  read_as-policy_of w corrupt e = Triple-raise state_corrupt (At-same w state_corrupt)
  read_as-policy_of w (stored p) e = Triple-pure p (λ env q. (rw (← e) refl, q))

  probe-Quiet : (w : World) → Triple (At w) probe (λ _. At w) (Unharmed w)
  unfolding probe
  probe-Quiet w =
      run-attempt w _ proxy_unhealthy _ (calm_same w)
        (run-attempt_last w _ proxy_unhealthy (calm_same w))

  already_applied-Quiet : (w : World) (p : Policy) → Quiet w (already_applied h p x)
  unfolding already_applied
  already_applied-Quiet w p =
      Quiet-if w _ _ _ (Quiet-bind w _ _ (status-Quiet h w) (λ s. Quiet-pure w _)) (Quiet-pure w _)

  finish :
      (p : Policy) (restore : Saved) (w : World) (known : Bool)
      → policy_of w.policy ≡ some p
      → restore_point p w.mode w.url ≡ ok restore
      → (not (known_mode w.mode) || ltb 4096 (length w.url)) ≡ false
      → Triple
          (At w)
          (if known then pure unchanged else change h x p restore w.mode w.url)
          (λ r env. Applies h x w r env.now)
          (Unharmed w)
  finish p restore w true found back fits = Triple-pure unchanged (λ env q. q.world)
  finish p restore w false found back fits = change-Triple h x short p restore w found back fits

  apply_over-Triple :
      (w : World) (p : Policy)
      → policy_of w.policy ≡ some p
      → Triple (At w) (apply_over h x p) (λ r env. Applies h x w r env.now) (Unharmed w)
  unfolding apply_over get_mode get_url
  apply_over-Triple w p found = run-query w _ command_failed _ (calm_same w) (
      run-query w _ command_failed _ (calm_same w) (
        run-lift (restore_point p w.mode w.url) _ (λ e env. At-same w e env)
          (λ restore back. run-test _ baseline_invalid _ (At-same w baseline_invalid) (λ fits.
            Triple-bind _ _ (probe-Quiet w) (λ _.
              run-Quiet w _ _ (already_applied-Quiet w p) (At-same w)
                (λ known. finish p restore w known found back fits))))))

  apply_checked-Triple :
      (w : World)
      → Triple (At w) (apply_checked h x) (λ r env. Applies h x w r env.now) (Unharmed w)
  unfolding apply_checked read_policy
  apply_checked-Triple w =
      Triple-bind _ _
        (run-query w _ state_corrupt _ (calm_same w) (read_as-policy_of w w.policy refl))
        (λ p. record { at = λ env q. (apply_over-Triple w p q.0).at env q.1 })

port_bound : (port : Untyped ℕ) → port_ok port ≡ true → port_of port ≤ 65535
unfolding port_ok
port_bound ill_typed h = cc
port_bound (typed port) h = ground arith

-- On a canonical list `pac_script` fails by its port only.
pub pac_script-canonical :
    (t : Tables) (hosts : List Text) (port : Untyped ℕ)
    → IsCanonical hosts
    → hosts ≢ []
    → pac_script t hosts port
      ≡ (if port_ok port then ok (script hosts (port_of port)) else err proxy_port_invalid)
unfolding pac_script
pac_script-canonical t hosts port c n =
    rw (parse_domains-canonical t hosts c n)
      (elim (Bool-cases (port_ok port)) [ inl good ↦ rw good refl | inr bad ↦ rw bad refl ])

short_script :
    (t : Tables) (hosts : List Text) (port : Untyped ℕ) {content : Text}
    → IsCanonical hosts
    → hosts ≢ []
    → pac_script t hosts port ≡ ok content
    → length content ≤ 32768
short_script t hosts port {content} c n e = elim (Bool-cases (port_ok port)) [
  | inl good ↦
      let same : script hosts (port_of port) ≡ content =
        cc (pac_script-canonical t hosts port c n, good, e) in
      rw (← same) (omega (arith, length-script hosts (port_of port) c (port_bound port good)))
  | inr bad ↦ cc (pac_script-canonical t hosts port c n, bad, e)
]

rejecting-eq-ok : {A : Type 0} (r : Result PacError A) {a : A} → rejecting r ≡ ok a → r ≡ ok a
rejecting-eq-ok (ok a) h = cc
rejecting-eq-ok (err e) h = cc

from_domains-eq-ok :
    {A : Type 0} (r : Result DomainError A) {a : A} → from_domains r ≡ ok a → r ≡ ok a
from_domains-eq-ok (ok a) h = cc
from_domains-eq-ok (err e) h = cc

-- The script that `check_arguments` hands on is short enough to be read back whole.
short_content :
    (h : Host) (given : Untyped Text) (port : Untyped ℕ) (method : Text) (x : Wanted)
    → check_arguments h given port method ≡ ok x
    → length x.content ≤ 32768
unfolding check_arguments
short_content h given port method x e =
    let (hosts, parsed, e1) =
      >>=-eq-ok (rejecting (from_domains (parse_domains h.tables given))) _ e in
    let (_, _, e2) = >>=-eq-ok (raise_if (not (is_int port)) (rejected proxy_port_invalid)) _ e1 in
    let (_, _, e3) =
      >>=-eq-ok (raise_if (not (elem (upper h.tables method) methods)) method_invalid) _ e2 in
    let (content, scripted, e4) = >>=-eq-ok (rejecting (pac_script h.tables hosts port)) _ e3 in
    let same : content ≡ x.content = cc in
    let (canonical, full) =
      parse_domains-IsCanonical h.tables given
        (from_domains-eq-ok (parse_domains h.tables given) (rejecting-eq-ok _ parsed)) in
    rw (← same) (short_script h.tables hosts port canonical full (rejecting-eq-ok _ scripted))

-- With at most one failing command, `apply` is a transaction. If it returns, the settings point at
-- the PAC file of the requested domains, which the running server serves, the unit is the one that
-- `_service_text` prints, and the policy records that with the settings to restore; or nothing has
-- changed. If it raises, the policy, the PAC file,
-- the unit and both settings are as before.
pub apply_atomic :
    (h : Host) (given : Untyped Text) (port : Untyped ℕ) (method : Text) (env : Env World)
    → OneFault env.faults
    → Ends
        (λ r env'.
          (x : Wanted) × (check_arguments h given port method ≡ ok x)
          × Applies h x env.now r env'.now)
        (λ e env'. SameOutside env.now env'.now)
        (apply h given port method env)
unfolding apply
apply_atomic h given port method env one =
    (run-lift {P = At env.now} (check_arguments h given port method) (apply_checked h)
        (λ e env'. At-same env.now e env')
        (λ x e.
          Triple-mono (apply_checked h x) (λ s p. p) (λ r s q. (x, e, q)) (λ f s q. q)
            (apply_checked-Triple h x (short_content h given port method x e) env.now))).at
      env (record { world = refl; faulty = one })
