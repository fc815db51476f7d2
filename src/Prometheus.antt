-- ===== src/Prometheus.antt =====
-- The gauges and the counter of internal/prometheus/prometheus.go. The two alert metrics only move
-- by one, so whole numbers stand for their `float64` values.
pub mod Registry
use server_watch.Base.{ℕ, List, ◌∷◌, String}
use server_watch.Base.Int.{ℤ}
use server_watch.Model.{Metrics}

-- One value of the histogram `HTTPLatency`, with its labels.
pub record Observation : Type 0 where
  pub path : String
  pub method : String
  pub status : ℕ
  pub duration : ℕ

-- The histogram is the list of its observations, the newest first.
pub record Gauges (F : Type 0) : Type 0 where
  pub cpu_percent : F
  pub mem_used_mb : F
  pub mem_total_mb : F
  pub disk_used_gb : F
  pub disk_total_gb : F
  pub alerts_active_total : ℤ
  pub alerts_total : ℕ
  pub http_latency : List Observation

abbrev pub update_prometheus_metrics : {F : Type 0} → Metrics F → Gauges F → Gauges F
update_prometheus_metrics m g = record g {
  cpu_percent = m.cpu_usage;
  mem_used_mb = m.mem_used_mb;
  mem_total_mb = m.mem_total_mb;
  disk_used_gb = m.disk_used;
  disk_total_gb = m.disk_total;
}

abbrev pub observe_latency : {F : Type 0} → Observation → Gauges F → Gauges F
observe_latency o g = record g { http_latency = o ∷ g.http_latency }
