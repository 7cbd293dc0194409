-- ===== src/Route/Status/Truth.antt =====
-- The reports of `status` of the Windows tunnel.
use free_net_hub.Prelude.{
  ◌≡◌, not, refl, sym, Bool, true, false, ◌&&◌, Option, none, some, if◌then◌else◌, and-eq_true,
  List, [], ◌∷◌,
}
use free_net_hub.Prelude.Exec.{pure, ◌>>=◌}
use free_net_hub.Prelude.Faults.{Env, Triple, Ends, poll}
use free_net_hub.Prelude.Faults.Rules.{
  Triple-bind, Triple-pure, Triple-raise, Triple-if, Triple-mono,
}
use free_net_hub.Prelude.Faults.Anyhow.{Now, any-query}
use free_net_hub.Text.{Text, text, eq_text}
use free_net_hub.Route.Registry.{
  State, StateFile, absent, corrupt, stored, no_state, Settings, World, Fault, state_corrupt,
  pac_unreadable, M, state_of, load_state, snapshot, eq_settings, active_registry, answers_to,
  health,
}
use free_net_hub.Route.Registry.Commands.{snapshot-Now, IsOurs}
use free_net_hub.Route.Status.{
  Outside, RouteStatus, serves, content_ready, pac_ready, tailnet_greets, measure_health,
  is_script_url, is_orphan, in_flight_status, route_report, settled_status, status_route,
}

abbrev Unchanged : World → Fault → Env World → Type 0
Unchanged w e env = env.now ≡ w

unchanged : (w : World) (env : Env World) → Now w env → env.now ≡ w
unchanged w env n = n.world

-- The service answers to the token, and serves the file of the script.
pub record IsServing (o : Outside) (w : World) (st : State) : Type 0 where
  pub answers : answers_to st.server_token w ≡ true
  pub source : Text
  pub file : w.pac ≡ some source
  pub served : serves o source w ≡ true

module _ (w : World) {R : Fault → Env World → Type 0} where
  poll-Now :
      (g : World → Bool) → Triple (Now w) (poll g) (λ b env. (b ≡ true → g w ≡ true) × Now w env) R
  unfolding poll
  poll-Now g = record { at = λ env n. go env.faults env.now n.world }
    where
      go :
          (fs : List Bool) (s : World)
          → s ≡ w
          → Ends
              (λ b env. (b ≡ true → g w ≡ true) × Now w env)
              R
              (poll g record { faults = fs; now = s })
      go [] s e = rw (sym e) ((λ h. h), record { world = refl })
      go (true ∷ fs) s e = ((λ h. cc), record { world = e })
      go (false ∷ fs) s e = rw (sym e) ((λ h. h), record { world = refl })

  gate-Now :
      {X : Type 0} (b : Bool) (m : M Bool)
      → Triple (Now w) m (λ r env. (r ≡ true → X) × Now w env) R
      → Triple
          (Now w)
          (if b then m else pure false)
          (λ r env. (r ≡ true → (b ≡ true) × X) × Now w env)
          R
  gate-Now b m t =
      Triple-if b _ _
        (λ on. Triple-mono m (λ env n. n) (λ r env q. (λ h. (on, q.0 h), q.1)) (λ e env r. r) t)
        (λ _. Triple-pure false (λ env n. (λ h. cc, n)))

module _ (o : Outside) (w : World) where
  content_ready-Now :
      (file : Option Text)
      → w.pac ≡ file
      → Triple
          (Now w)
          (content_ready o file)
          (λ b env.
            (b ≡ true → (source : Text) × (w.pac ≡ some source) × (serves o source w ≡ true))
            × Now w env)
          (Unchanged w)
  content_ready-Now none e = Triple-pure false (λ env n. (λ h. cc, n))
  content_ready-Now (some source) e =
      Triple-mono _ (λ env n. n) (λ b env q. (λ h. (source, e, q.0 h), q.1)) (λ e env r. r)
        (poll-Now w {R = Unchanged w} (serves o source))

  pac_ready-Now :
      Triple
        (Now w)
        (pac_ready o)
        (λ b env.
          (b ≡ true → (source : Text) × (w.pac ≡ some source) × (serves o source w ≡ true))
          × Now w env)
        (Unchanged w)
  unfolding pac_ready
  pac_ready-Now = any-query w _ pac_unreadable _ (unchanged w) (content_ready-Now w.pac refl)

  module _ (st : State) (bound : Bool) where
    measure_health-Now :
        Triple
          (Now w)
          (measure_health o st bound)
          (λ b env. (b ≡ true → (bound ≡ true) × IsServing o w st) × Now w env)
          (Unchanged w)
    unfolding measure_health health
    measure_health-Now =
        Triple-bind _ _ (gate-Now w bound _ (poll-Now w (answers_to st.server_token))) (λ up.
          record {
            at = λ env q.
                (Triple-bind _ _ (gate-Now w up _ (poll-Now w (answers_to st.server_token)))
                    (λ bridge. record {
                      at = λ env q'.
                          (Triple-bind _ _ (gate-Now w bridge _ pac_ready-Now) (λ ready. record {
                            at = λ env q''.
                                (final ready (λ h.
                                    let (b, (source, file, served)) = q''.0 h in
                                    let (u, _) = q'.0 b in
                                    let (on, answers) = q.0 u in
                                    (
                                      on,
                                      record {
                                        answers = answers;
                                        source = source;
                                        file = file;
                                        served = served;
                                      },
                                    ))).at
                                  env q''.1;
                          })).at
                            env q'.1;
                    })).at
                  env q.1;
          })
      where
        final :
            (ready : Bool)
            → (ready ≡ true → (bound ≡ true) × IsServing o w st)
            → Triple
                (Now w)
                (if ready && eq_text st.method (text "TAILNET")
                  then poll (λ w. tailnet_greets o st)
                  else pure ready)
                (λ b env. (b ≡ true → (bound ≡ true) × IsServing o w st) × Now w env)
                (Unchanged w)
        final ready k =
            Triple-if _ _ _
              (λ on.
                Triple-mono _ (λ env n. n) (λ b env q. (λ h. k ((and-eq_true ready _ on).0), q.1))
                  (λ e env r. r) (poll-Now w {R = Unchanged w} (λ w. tailnet_greets o st)))
              (λ _. Triple-pure ready (λ env n. (k, n)))

-- What is so where `status` returns this report.
pub record IsTrue (o : Outside) (w : World) (r : RouteStatus) : Type 0 where
  pub serving :
      r.healthy ≡ true
      → (st : State) × (w.state ≡ stored st)
        × (st.enabled ≡ true)
        × (st.in_flight ≡ false)
        × IsOurs w st
        × IsServing o w st
  pub on : r.is_ok ≡ true → r.enabled ≡ true → r.healthy ≡ true
  pub off : r.is_ok ≡ true → r.enabled ≡ false → is_script_url w.settings.auto_config ≡ false

good_on : (e h o : Bool) → (if e then h else not o) ≡ true → e ≡ true → h ≡ true
good_on true h o good on = good
good_on false h o good on = cc

good_off : (e h i : Bool) → (if e then h else not (not e && i)) ≡ true → e ≡ false → i ≡ false
good_off true h i good off = cc
good_off false h true good off = cc
good_off false h false good off = refl

abbrev Reports : Outside → World → RouteStatus → Env World → Type 0
Reports o w r env = IsTrue o w r × (env.now ≡ w)

module _ (o : Outside) (w : World) (st : State) where
  report-IsTrue :
      (bound healthy : Bool)
      → (healthy ≡ true
          → (st : State) × (w.state ≡ stored st)
            × (st.enabled ≡ true)
            × (st.in_flight ≡ false)
            × IsOurs w st
            × IsServing o w st)
      → IsTrue o w (route_report st (is_orphan st w.settings) bound healthy)
  unfolding route_report is_orphan
  report-IsTrue bound healthy k = record {
    serving = k;
    on = λ ok on. good_on st.enabled healthy _ ok on;
    off = λ ok off. good_off st.enabled healthy _ ok off;
  }

  settled_status-Triple :
      (st.enabled ≡ true → w.state ≡ stored st)
      → st.in_flight ≡ false
      → Triple (Now w) (settled_status o st w.settings) (Reports o w) (Unchanged w)
  unfolding settled_status
  settled_status-Triple found settled =
      let bound = st.enabled && eq_settings w.settings (active_registry st.pac_url) in
      Triple-bind _ _ (measure_health-Now o w st bound) (λ healthy. record {
        at = λ env q.
            (Triple-pure {P = Now w} {R = Unchanged w}
                (route_report st (is_orphan st w.settings) bound healthy)
                (λ env n. (
                  report-IsTrue bound healthy (λ h.
                      let (b, s) = q.0 h in
                      let (on, ours) = and-eq_true st.enabled _ b in
                      (st, found on, on, settled, ours, s)),
                  n.world,
                ))).at
              env q.1;
      })

  read_status-Triple :
      (st.enabled ≡ true → w.state ≡ stored st)
      → (settings : Settings) → settings ≡ w.settings
      → Triple
          (Now w)
          (if st.in_flight then pure (in_flight_status st) else settled_status o st settings)
          (Reports o w)
          (Unchanged w)
  read_status-Triple found settings e = rw e (
      Triple-if st.in_flight _ _
        (λ _.
          Triple-pure (in_flight_status st) (λ env n.
            (record { serving = λ h. cc; on = λ ok on. cc; off = λ ok off. cc }, n.world)))
        (λ settled. settled_status-Triple found settled))

  state_status-Triple :
      (st.enabled ≡ true → w.state ≡ stored st)
      → Triple
          (Now w)
          (do
            settings ← snapshot
            (if st.in_flight then pure (in_flight_status st) else settled_status o st settings))
          (Reports o w)
          (Unchanged w)
  state_status-Triple found =
      Triple-bind _ _ (snapshot-Now w (λ _. unchanged w))
        (λ settings. record { at = λ env q. (read_status-Triple found settings q.0).at env q.1 })

found-Triple :
    (w : World) (file : StateFile)
    → w.state ≡ file
    → Triple
        (Now w)
        (state_of file)
        (λ st env. (st.enabled ≡ true → w.state ≡ stored st) × Now w env)
        (Unchanged w)
found-Triple w absent e = Triple-pure no_state (λ env n. (λ on. cc, n))
found-Triple w corrupt e = Triple-raise state_corrupt (unchanged w)
found-Triple w (stored st) e = Triple-pure st (λ env n. (λ on. e, n))

status-Triple :
    (o : Outside) (w : World) → Triple (Now w) (status_route o) (Reports o w) (Unchanged w)
unfolding status_route load_state
status-Triple o w =
    Triple-bind _ _ (any-query w _ state_corrupt _ (unchanged w) (found-Triple w w.state refl))
      (λ st. record { at = λ env q. (state_status-Triple o w st q.0).at env q.1 })

-- `status` changes nothing, whatever commands fail. If it reports a tunnel that is healthy, then the
-- state file says that it is on and not in flight, the registry has the values of that state, the
-- service answers to its token, and it serves the script that the PAC file has. If the report is
-- good, then a tunnel that is on is healthy, and where it is off the registry does not name the
-- script.
pub status_route-IsTrue :
    (o : Outside) (env : Env World)
    → Ends
        (λ r env'. IsTrue o env.now r × (env'.now ≡ env.now))
        (λ e env'. env'.now ≡ env.now)
        (status_route o env)
status_route-IsTrue o env = (status-Triple o env.now).at env (record { world = refl })
