-- ===== src/Service/Rounds.antt =====
-- A round of the collector with nothing between its parts.
use server_watch.Base.{◌≡◌, subst, Bool, true, false, Result-cases, inl, inr, arith}
use server_watch.System.Interfaces.{Deps}
use server_watch.System.{Readings, measure, record_metrics, collect_metrics}
use server_watch.Handlers.{HttpEnv}
use server_watch.Server.{Mounted}
use server_watch.Service.{
  Service, idle, measured, recorded, is_over, Reach, tick, save, alert, here, next, advance,
}

module _ {F : Type 0} (d : Deps F) (env : HttpEnv F) (mounted : Mounted F) (pprof : Bool) where
  -- While the collector waits, the service can reach the state after a whole `CollectMetrics`.
  whole_round :
      (rd : Readings F) (s : Service d)
      → s.collecting ≡ true
      → s.phase ≡ idle
      → is_over s.stage ≡ false
      → Reach d env mounted pprof s
          (advance d env mounted pprof (collect_metrics d rd) (λ _. idle) s)
  unfolding collect_metrics
  whole_round rd s on waits alive = elim (Result-cases (measure d rd s.world).0) [
    | inr (e, failed) ↦
        subst (Reach d env mounted pprof s) (ground (arith, failed))
          (next here alive (tick rd on waits))
    | inl (m, fine) ↦
        let s1 = advance d env mounted pprof (measure d rd) measured s in
        let s2 = advance d env mounted pprof (record_metrics d m) (λ _. recorded m) s1 in
        let begun = next here alive (tick rd on waits) in
        let saved : Reach d env mounted pprof s s2 =
          next begun alive (save m (ground (arith, fine)) (ground (arith, fine))) in
        elim (Result-cases (record_metrics d m s1.world).0) [
          | inr (e, failed) ↦
              subst (Reach d env mounted pprof s) (ground (arith, fine, failed)) saved
          | inl (u, done) ↦
              subst (Reach d env mounted pprof s) (ground (arith, fine, done))
                (next saved alive (alert m (ground (arith, done)) (ground (arith, done))))
        ]
  ]
