-- ===== src/System/Processing.antt =====
-- `processAlerts` on a system whose stores keep their contracts: the turns of both types.
use server_watch.Base.{
  ◌≡◌, ◌≢◌, ◌⊎◌, refl, inl, inr, Bool, true, false, ok, arith, ap, ◌∙◌, if◌then◌else◌,
}
use server_watch.Base.Int.{ℤ}
use server_watch.Model.{
  AlertUpdate, Metrics, Notification, condition_high, condition_normal, alert_type_high_cpu,
  alert_type_high_mem,
}
use server_watch.Alerts.Store.{StoreLaws}
use server_watch.System.Interfaces.{Deps, RepositoryLaws}
use server_watch.System.{World, high_cpu_threshold, high_mem_threshold, process_alerts}
use server_watch.System.Counting.{cpu_condition, mem_condition, is_raised}
use server_watch.System.Alerting.{decide_alert, process_type-Turns}
use server_watch.System.Announcements.{
  Says, Notified, Notified-weaken, Notified-trans, cpu_turn-Notified, mem_turn-Notified,
}
use server_watch.System.Turns.{raised, moved}

module _ {F : Type 0} (d : Deps F) (repo_laws : RepositoryLaws d.repository)
    (store_laws : StoreLaws d.alert_state) where
  -- The gauge of active alerts moves with both alerts.
  abbrev pub GaugeMoves : World d → World d → Type 0
  GaugeMoves w w' =
      w'.gauges.alerts_active_total
      ≡ moved (is_raised d repo_laws store_laws w alert_type_high_mem)
          (is_raised d repo_laws store_laws w' alert_type_high_mem)
          (moved (is_raised d repo_laws store_laws w alert_type_high_cpu)
            (is_raised d repo_laws store_laws w' alert_type_high_cpu) w.gauges.alerts_active_total)

  -- A notification of a change, with the value that `m` has and the threshold of its type.
  abbrev pub IsAbout : Metrics F → Notification F → Type 0
  IsAbout m n =
      Says d repo_laws alert_type_high_cpu m.cpu_usage (high_cpu_threshold d) n
      ⊎ Says d repo_laws alert_type_high_mem m.mem_usage (high_mem_threshold d) n

  -- What the turns of both types leave behind.
  pub record BothTurns (m : Metrics F) (u : AlertUpdate) (w w' : World d) : Type 0 where
    pub ready : repo_laws.Ready w'.repo
    pub cpu :
        is_raised d repo_laws store_laws w' alert_type_high_cpu
        ≡ decide_alert d repo_laws u.cpu_condition u.cpu_count
            (is_raised d repo_laws store_laws w alert_type_high_cpu)
    pub mem :
        is_raised d repo_laws store_laws w' alert_type_high_mem
        ≡ decide_alert d repo_laws u.mem_condition u.mem_count
            (is_raised d repo_laws store_laws w alert_type_high_mem)
    pub alerts : w'.alerts ≡ w.alerts
    pub last_error : w'.last_error ≡ w.last_error
    pub last_success : w'.last_success ≡ w.last_success
    pub metrics : w'.metrics ≡ w.metrics
    pub config : w'.config ≡ w.config
    pub gauge : GaugeMoves w w'
    pub notified : Notified d repo_laws (IsAbout m) w w'

  -- A change of an alert goes where the newest value is.
  decide_alert_why :
      (above : Bool) (n : ℤ) (before : Bool)
      → let after =
          decide_alert d repo_laws (if above then condition_high else condition_normal) n before in
        before ≢ after → after ≡ above
  decide_alert_why true n before h = ground arith
  decide_alert_why false n before h = ground arith

  pub process_alerts-BothTurns :
      (m : Metrics F) (u : AlertUpdate) (w : World d)
      → u.cpu_condition ≡ cpu_condition d repo_laws store_laws m.cpu_usage
      → u.mem_condition ≡ mem_condition d repo_laws store_laws m.mem_usage
      → repo_laws.Ready w.repo
      → (w' : World d) × (process_alerts d m u w ≡ (ok tt, w')) × BothTurns m u w w'
  unfolding process_alerts
  process_alerts-BothTurns m u w cpu_is mem_is up =
      let (w1, made1, turn1) =
        process_type-Turns d repo_laws alert_type_high_cpu m.cpu_usage (high_cpu_threshold d)
          u.cpu_condition u.cpu_count w refl up in
      let (w2, made2, turn2) =
        process_type-Turns d repo_laws alert_type_high_mem m.mem_usage (high_mem_threshold d)
          u.mem_condition u.mem_count w1 refl turn1.ready in
      (
        w2,
        ground arith,
        record {
          ready = turn2.ready;
          cpu = ap raised (turn2.active_other alert_type_high_cpu refl) ∙ turn1.active_self;
          mem =
              turn2.active_self
              ∙ ap (λ a. decide_alert d repo_laws u.mem_condition u.mem_count (raised a))
                  (turn1.active_other alert_type_high_mem refl);
          alerts = turn2.alerts ∙ turn1.alerts;
          last_error = turn2.last_error ∙ turn1.last_error;
          last_success = turn2.last_success ∙ turn1.last_success;
          metrics = turn2.metrics ∙ turn1.metrics;
          config = turn2.config ∙ turn1.config;
          gauge =
              rw
                (
                  ap raised (turn2.active_other alert_type_high_cpu refl) ∙ turn1.active_self,
                  turn2.active_self,
                  ← ap raised (turn1.active_other alert_type_high_mem refl),
                  ← turn1.gauge,
                )
                turn2.gauge;
          notified =
              Notified-trans d repo_laws (IsAbout m) w w1 w2
                (Notified-weaken d repo_laws _ (IsAbout m) (λ n h. inl h) w w1
                  (cpu_turn-Notified d repo_laws m.cpu_usage (high_cpu_threshold d) _ w w1 turn1
                    (rw cpu_is (decide_alert_why _ u.cpu_count _))))
                (Notified-weaken d repo_laws _ (IsAbout m) (λ n h. inr h) w1 w2
                  (mem_turn-Notified d repo_laws m.mem_usage (high_mem_threshold d) _ w1 w2 turn2
                    (rw mem_is (decide_alert_why _ u.mem_count _))));
        },
      )
