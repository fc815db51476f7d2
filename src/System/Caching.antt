-- ===== src/System/Caching.antt =====
-- What a round of the collector that succeeded leaves for `GetMetrics`: the current metrics, and
-- their copy in the cache.
use server_watch.Base.{◌≡◌, ◌∙◌, refl, sym, ap, none, suc, true, ok, arith, Result-cases, inl, inr}
use server_watch.Model.{Metrics}
use server_watch.System.Interfaces.{Deps}
use server_watch.Prometheus.{update_prometheus_metrics}
use server_watch.System.{
  World, Readings, process_alerts, update_alerts, measure, record_metrics, evaluate,
  collect_metrics,
}
use server_watch.System.Reports.{update_alerts-IsKept, process_alerts-IsKept}

module _ {F : Type 0} (d : Deps F) (cached : d.has_cache ≡ true) where
  -- `m` is the current metrics, and the cache `before` was asked to store it.
  pub record IsShown (m : Metrics F) (before : d.cache.St) (w : World d) : Type 0 where
    pub current : w.metrics ≡ m
    pub copy : w.cache ≡ (d.cache.set_metrics m before).1

  pub evaluate-IsShown :
      (m : Metrics F) (w : World d)
      → w.metrics ≡ m
      → (evaluate d m w).0 ≡ ok tt
      → IsShown m w.cache (evaluate d m w).1
  unfolding evaluate
  evaluate-IsShown m w now fine =
      let kept = update_alerts-IsKept d m w in
      elim (Result-cases (update_alerts d m w).0) [
        | inl (u, e) ↦
            let kept' = process_alerts-IsKept d m u (update_alerts d m w).1 in
            elim (Result-cases (process_alerts d m u (update_alerts d m w).1).0) [
              | inl (x, e') ↦ ground (arith, e, e', cached)
              | inr (x, e') ↦ absurd (ground (arith, e, e'))
            ]
        | inr (x, e) ↦ absurd (ground (arith, e))
      ]

  -- What `CollectMetrics` from its measurement on leaves, if it succeeds.
  pub collect_metrics-IsShown :
      (usage : F) (mem disk : F × F × F) (w : World d)
      → (collect_metrics d (record { cpu = ok usage; mem = ok mem; disk = ok disk }) w).0 ≡ ok tt
      → IsShown
          (record {
            cpu_usage = usage;
            mem_usage = mem.2;
            mem_used_mb = mem.1;
            mem_total_mb = mem.0;
            disk_usage = disk.2;
            disk_used = disk.1;
            disk_total = disk.0;
            timestamp = d.now w.clock;
          })
          w.cache
          (collect_metrics d (record { cpu = ok usage; mem = ok mem; disk = ok disk }) w).1
  unfolding collect_metrics measure record_metrics
  collect_metrics-IsShown usage mem disk w fine =
      let m : Metrics F = record {
        cpu_usage = usage;
        mem_usage = mem.2;
        mem_used_mb = mem.1;
        mem_total_mb = mem.0;
        disk_usage = disk.2;
        disk_used = disk.1;
        disk_total = disk.0;
        timestamp = d.now w.clock;
      } in
      let w1 : World d = record w {
        clock = suc w.clock;
        repo = (d.repository.save_metrics m w.repo).1;
        metrics = m;
        last_error = none;
        last_success = m.timestamp;
        gauges = update_prometheus_metrics m w.gauges;
      } in
      let rd : Readings F = record { cpu = ok usage; mem = ok mem; disk = ok disk } in
      elim (Result-cases (d.repository.save_metrics m w.repo).0) [
        | inl (x, e) ↦
            let here : collect_metrics d rd w ≡ evaluate d m w1 = ground (arith, e) in
            rw here (evaluate-IsShown m w1 refl (ap (λ o. o.0) (sym here) ∙ fine))
        | inr (x, e) ↦ absurd (ground (arith, e))
      ]
