-- ===== src/System/Evaluation.antt =====
-- The part of `CollectMetrics` after the measurement is saved, on a system whose stores keep their
-- contracts: both counters, and both alerts.
use server_watch.Base.{
  ◌≡◌, refl, Bool, true, false, ok, Action, when, logged, arith, ap, ◌∙◌, if◌then◌else◌,
}
use server_watch.Model.{AlertUpdate, Metrics, alert_type_high_cpu, alert_type_high_mem}
use server_watch.Alerts.Store.{StoreLaws, bump}
use server_watch.System.Interfaces.{Deps, RepositoryLaws}
use server_watch.System.{World, on_cache, evaluate}
use server_watch.System.Counting.{
  cpu_condition, mem_condition, is_raised, state_of, IsSteady, update_alerts_result,
}
use server_watch.System.Alerting.{decide_alert}
use server_watch.System.Announcements.{Notified, Notified-trans, quiet-Notified}
use server_watch.System.Processing.{GaugeMoves, IsAbout, process_alerts-BothTurns}

module _ {F : Type 0} (d : Deps F) (repo_laws : RepositoryLaws d.repository)
    (store_laws : StoreLaws d.alert_state) where
  -- The cache only gets a copy.
  cache_step :
      (b : Bool) (act : Action d.cache.St (Unit {0})) (w : World d)
      → when b (logged (on_cache d act)) w
        ≡ (ok tt, record w { cache = if b then (act w.cache).1 else w.cache })
  cache_step true act w = refl
  cache_step false act w = refl

  -- What a round that recorded `m` leaves behind.
  pub record Collected (m : Metrics F) (w w' : World d) : Type 0 where
    pub repo_ready : repo_laws.Ready w'.repo
    pub store_ready : store_laws.Ready w'.alerts
    pub cpu_state :
        state_of d repo_laws store_laws w' alert_type_high_cpu
        ≡ bump
            (cpu_condition d repo_laws store_laws m.cpu_usage)
            (state_of d repo_laws store_laws w alert_type_high_cpu)
    pub mem_state :
        state_of d repo_laws store_laws w' alert_type_high_mem
        ≡ bump
            (mem_condition d repo_laws store_laws m.mem_usage)
            (state_of d repo_laws store_laws w alert_type_high_mem)
    pub cpu_active :
        is_raised d repo_laws store_laws w' alert_type_high_cpu
        ≡ decide_alert d repo_laws
            (cpu_condition d repo_laws store_laws m.cpu_usage)
            (state_of d repo_laws store_laws w' alert_type_high_cpu).count
            (is_raised d repo_laws store_laws w alert_type_high_cpu)
    pub mem_active :
        is_raised d repo_laws store_laws w' alert_type_high_mem
        ≡ decide_alert d repo_laws
            (mem_condition d repo_laws store_laws m.mem_usage)
            (state_of d repo_laws store_laws w' alert_type_high_mem).count
            (is_raised d repo_laws store_laws w alert_type_high_mem)
    pub config : w'.config ≡ w.config
    pub gauge : GaugeMoves d repo_laws store_laws w w'
    pub notified : Notified d repo_laws (IsAbout d repo_laws store_laws m) w w'

  -- The part of a round after the measurement is saved.
  pub evaluate-Collected :
      (m : Metrics F) (w : World d)
      → IsSteady d repo_laws store_laws w
      → (w' : World d) × (evaluate d m w ≡ (ok tt, w'))
        × Collected m w w'
        × (w'.last_error ≡ w.last_error)
        × (w'.last_success ≡ w.last_success)
        × (w'.metrics ≡ w.metrics)
  unfolding evaluate
  evaluate-Collected m w st =
      let (s, updated, up, cpu, mem) = update_alerts_result d repo_laws store_laws m w st in
      let update : AlertUpdate = record {
        cpu_count =
            (bump (cpu_condition d repo_laws store_laws m.cpu_usage)
              (state_of d repo_laws store_laws w alert_type_high_cpu)).count;
        cpu_condition = cpu_condition d repo_laws store_laws m.cpu_usage;
        mem_count =
            (bump (mem_condition d repo_laws store_laws m.mem_usage)
              (state_of d repo_laws store_laws w alert_type_high_mem)).count;
        mem_condition = mem_condition d repo_laws store_laws m.mem_usage;
      } in
      let w1 : World d = record w { alerts = s } in
      let (w2, processed, turns) =
        process_alerts-BothTurns d repo_laws store_laws m update w1 refl refl st.repo_ready in
      let cached = cache_step d.has_cache (d.cache.set_metrics m) w2 in
      let s2 = if d.has_cache then (d.cache.set_metrics m w2.cache).1 else w2.cache in
      let w3 : World d = record w2 { cache = s2 } in
      let now_cpu = ap (λ a. store_laws.view a alert_type_high_cpu) turns.alerts ∙ cpu in
      let now_mem = ap (λ a. store_laws.view a alert_type_high_mem) turns.alerts ∙ mem in
      (
        w3,
        ground arith,
        record {
          repo_ready = turns.ready;
          store_ready = rw turns.alerts up;
          cpu_state = now_cpu;
          mem_state = now_mem;
          cpu_active = rw now_cpu turns.cpu;
          mem_active = rw now_mem turns.mem;
          config = turns.config;
          gauge = turns.gauge;
          notified =
              Notified-trans d repo_laws (IsAbout d repo_laws store_laws m) w w1 w3
                (quiet-Notified d repo_laws (IsAbout d repo_laws store_laws m) w w1 refl
                  (λ u. refl))
                (Notified-trans d repo_laws (IsAbout d repo_laws store_laws m) w1 w2 w3
                  turns.notified
                  (quiet-Notified d repo_laws (IsAbout d repo_laws store_laws m) w2 w3 refl
                    (λ u. refl)));
        },
        turns.last_error,
        turns.last_success,
        turns.metrics,
      )
