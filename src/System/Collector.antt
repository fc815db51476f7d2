-- ===== src/System/Collector.antt =====
-- The loop of `startMetricsCollector` in cmd/server-watch/main.go: one round at each tick, until
-- the context is cancelled (the end of the list) or a round fails.
use server_watch.Base.{List, [], ◌∷◌, Action, pure, ◌>>◌}
use server_watch.System.Interfaces.{Deps}
use server_watch.System.{World, Readings, collect_metrics}

module _ {F : Type 0} (d : Deps F) where
  unfoldable pub run_collector : List (Readings F) → Action (World d) (Unit {0})
  run_collector [] = pure tt
  run_collector (rd ∷ ticks) = do collect_metrics d rd; run_collector ticks
