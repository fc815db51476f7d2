-- ===== src/System/Collection.antt =====
-- One round of `CollectMetrics` on a system whose stores keep their contracts.
use server_watch.Base.{refl, sym, suc, ◌≡◌, none, ok, arith, ap, ◌∙◌}
use server_watch.Model.{AlertType, Metrics, alert_type_high_cpu, alert_type_high_mem}
use server_watch.Alerts.Store.{StoreLaws}
use server_watch.Prometheus.{update_prometheus_metrics}
use server_watch.System.Interfaces.{Deps, RepositoryLaws}
use server_watch.System.{World, record_metrics, measure, collect_metrics}
use server_watch.System.Alerting.{decide_alert}
use server_watch.System.Announcements.{Notified-trans, quiet-Notified}
use server_watch.System.Turns.{raised}
use server_watch.System.Counting.{cpu_condition, mem_condition, state_of, IsSteady}
use server_watch.System.Processing.{IsAbout}
use server_watch.System.Evaluation.{Collected, evaluate-Collected}

module _ {F : Type 0} (d : Deps F) (repo_laws : RepositoryLaws d.repository)
    (store_laws : StoreLaws d.alert_state) where
  -- A measurement of `rd` in `w`: its values, at the clock's time.
  abbrev pub measured : F → F × F × F → F × F × F → World d → Metrics F
  measured usage mem disk w = record {
    cpu_usage = usage;
    mem_usage = mem.2;
    mem_used_mb = mem.1;
    mem_total_mb = mem.0;
    disk_usage = disk.2;
    disk_used = disk.1;
    disk_total = disk.0;
    timestamp = d.now w.clock;
  }

  -- Saving a measurement: the repository gets it first, and then the system and the gauges.
  record_metrics_result :
      (m : Metrics F) (w : World d)
      → repo_laws.Ready w.repo
      → (s : d.repository.St) × (record_metrics d m w ≡ (
        ok tt,
        record w {
          repo = s;
          metrics = m;
          last_error = none;
          last_success = m.timestamp;
          gauges = update_prometheus_metrics m w.gauges;
        },
      ))
        × repo_laws.Ready s
        × ((u : AlertType) → repo_laws.active s u ≡ repo_laws.active w.repo u)
  unfolding record_metrics
  record_metrics_result m w up =
      let (s, saved, up', same) = repo_laws.save_metrics_law m w.repo up in
      (s, ground arith, up', same)

  -- With stores that keep their contracts and serve calls, counters with room and all readings at
  -- hand, `CollectMetrics` succeeds: the measurement becomes the current one, its time the last
  -- success, the last error is cleared, both counters take their measurement, each alert is as its
  -- counter decides, the stores serve on and the configuration is kept.
  pub collect_metrics-Collected :
      (usage : F) (mem disk : F × F × F) (w : World d)
      → IsSteady d repo_laws store_laws w
      → let m = measured usage mem disk w in
        (w' : World d) × (collect_metrics d
            (record { cpu = ok usage; mem = ok mem; disk = ok disk })
            w
          ≡ (ok tt, w'))
        × Collected d repo_laws store_laws m w w'
        × (w'.metrics ≡ m)
        × (w'.last_success ≡ m.timestamp)
        × (w'.last_error ≡ none)
  unfolding collect_metrics measure
  collect_metrics-Collected usage mem disk w st =
      let m = measured usage mem disk w in
      let (s, saved, up, same) =
        record_metrics_result m (record w { clock = suc w.clock }) st.repo_ready in
      let w1 : World d = record w {
        clock = suc w.clock;
        repo = s;
        metrics = m;
        last_error = none;
        last_success = m.timestamp;
        gauges = update_prometheus_metrics m w.gauges;
      } in
      let (w', evaluated, done, error, success, kept) =
        evaluate-Collected d repo_laws store_laws m w1 (record {
          repo_ready = up;
          store_ready = st.store_ready;
          cpu_room = st.cpu_room;
          mem_room = st.mem_room;
        }) in
      (
        w',
        ground arith,
        record {
          repo_ready = done.repo_ready;
          store_ready = done.store_ready;
          cpu_state = done.cpu_state;
          mem_state = done.mem_state;
          cpu_active =
              done.cpu_active
              ∙ ap
                  (λ a.
                    decide_alert d repo_laws (cpu_condition d repo_laws store_laws usage)
                      (state_of d repo_laws store_laws w' alert_type_high_cpu).count (raised a))
                  (same alert_type_high_cpu);
          mem_active =
              done.mem_active
              ∙ ap
                  (λ a.
                    decide_alert d repo_laws (mem_condition d repo_laws store_laws mem.2)
                      (state_of d repo_laws store_laws w' alert_type_high_mem).count (raised a))
                  (same alert_type_high_mem);
          config = done.config;
          gauge =
              rw
                (
                  ap raised (sym (same alert_type_high_cpu)),
                  ap raised (sym (same alert_type_high_mem)),
                )
                done.gauge;
          notified =
              Notified-trans d repo_laws (IsAbout d repo_laws store_laws m) w w1 w'
                (quiet-Notified d repo_laws (IsAbout d repo_laws store_laws m) w w1 refl same)
                done.notified;
        },
        kept,
        success,
        error,
      )
