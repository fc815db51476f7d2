-- ===== src/Prometheus/Registry.antt =====
-- `RegisterPrometheusMetrics` of internal/prometheus/prometheus.go. `Register` of the client's registry
-- is a parameter.
use server_watch.Base.{Action, wrapping, ◌>>◌}

-- The metrics of the package.
pub data Collector : Type 0 where
  cpu_percent mem_used_mb mem_total_mb disk_used_gb disk_total_gb : Collector
  alerts_active_total alerts_total http_latency : Collector

unfoldable pub register_prometheus_metrics :
    {R : Type 0} → (Collector → Action R (Unit {0})) → Action R (Unit {0})
register_prometheus_metrics register = do
  wrapping "не удалось зарегистрировать в Prometheus метрику cpu_percent" (register cpu_percent)
  wrapping "не удалось зарегистрировать в Prometheus метрику mem_used_mb" (register mem_used_mb)
  wrapping "не удалось зарегистрировать в Prometheus метрику mem_total_mb" (register mem_total_mb)
  wrapping "не удалось зарегистрировать в Prometheus метрику disk_used_gb" (register disk_used_gb)
  wrapping "не удалось зарегистрировать в Prometheus метрику disk_total_gb" (register disk_total_gb)
  wrapping "не удалось зарегистрировать в Prometheus метрику alerts_active_total"
      (register alerts_active_total)
  wrapping "не удалось зарегистрировать в Prometheus метрику alerts_total" (register alerts_total)
  wrapping "не удалось зарегистрировать HTTP latency" (register http_latency)
