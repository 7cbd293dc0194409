-- ===== src/Selective/Status/Reads.antt =====
-- `status` changes nothing, however its commands fail.
use free_net_hub.Prelude.{Bool, Option, none, some}
use free_net_hub.Prelude.Faults.Quiet.{
  Quiet, Quiet-pure, Quiet-raise, Quiet-query, Quiet-poll, Quiet-bind, Quiet-except, Quiet-if,
}
use free_net_hub.Text.{Text}
use free_net_hub.Selective.World.{
  World, Mode, Policy, PolicyFile, absent, corrupt, stored, Host, read_as, read_policy, get_mode,
  get_url, pac_online,
}
use free_net_hub.Selective.Status.{
  status, content_online, file_online, health, report_on, read_settings,
}

module _ (h : Host) (w : World) where
  pub read_as-Quiet : (file : PolicyFile) → Quiet w (read_as file)
  read_as-Quiet absent = Quiet-pure w _
  read_as-Quiet corrupt = Quiet-raise w _
  read_as-Quiet (stored p) = Quiet-pure w p

  pub read_policy-Quiet : Quiet w read_policy
  unfolding read_policy
  read_policy-Quiet = Quiet-bind w _ _ (Quiet-query w _ _) read_as-Quiet

  content_online-Quiet : (file : Option Text) → Quiet w (content_online h file)
  unfolding content_online pac_online
  content_online-Quiet none = Quiet-pure w _
  content_online-Quiet (some content) = Quiet-poll w _

  file_online-Quiet : Quiet w (file_online h)
  unfolding file_online
  file_online-Quiet = Quiet-bind w _ _ (Quiet-query w _ _) content_online-Quiet

  health-Quiet : (p : Policy) (bound : Bool) → Quiet w (health h p bound)
  unfolding health
  health-Quiet p bound =
      Quiet-bind w _ _ (Quiet-if w _ _ _ file_online-Quiet (Quiet-pure w _)) (λ up. Quiet-pure w _)

  read_settings-Quiet : Quiet w read_settings
  unfolding read_settings
  read_settings-Quiet =
      Quiet-except w _ _
        (unfold get_mode get_url in
          Quiet-bind w _ _ (Quiet-query w _ _)
            (λ mode. Quiet-bind w _ _ (Quiet-query w _ _) (λ url. Quiet-pure w _)))
        (λ e. Quiet-pure w _)

  report_on-Quiet :
      (p : Policy) (settings : Option (Mode × Text)) → Quiet w (report_on h p settings)
  unfolding report_on
  report_on-Quiet p none = Quiet-pure w _
  report_on-Quiet p (some (mode, url)) = health-Quiet p _

  pub status-Quiet : Quiet w (status h)
  unfolding status
  status-Quiet =
      Quiet-bind w _ _ read_policy-Quiet
        (λ p. Quiet-bind w _ _ read_settings-Quiet (λ settings. report_on-Quiet p settings))
