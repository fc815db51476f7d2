-- ===== src/System.antt =====
-- internal/system/system.go, config.go, health.go and metrics.go. A `World` is the fields of
-- `System` with the states of what it was built on, the Prometheus gauges and the clock. The
-- readings of internal/system/data come in as an argument. What is only logged is left out.
pub mod Interfaces
pub mod Turns
pub mod Alerting
pub mod Announcements
pub mod Counting
pub mod Processing
pub mod Evaluation
pub mod Collection
pub mod Collector
pub mod Settings
pub mod Caching
pub mod Reports
pub mod Balance
pub mod Subscriber
pub mod Hysteresis
use server_watch.Base.{
  ℕ, suc, Bool, true, false, ◌&&◌, Option, none, some, List, String, str_eq, Error, wrap, Result,
  ok, err, Action, pure, modify, when, wrapping, logged, ◌>>=◌, ◌>>◌, if◌then◌else◌,
}
use server_watch.Base.Int.{ℤ, pos, inc, dec, leb_ℤ}
use server_watch.Model.{
  Floats, Time, AlertType, AlertCondition, Metrics, Alert, AlertUpdate, Notification,
  alert_type_high_cpu, alert_type_high_mem, condition_high, condition_normal, action_created,
  action_resolved,
}
use server_watch.Prometheus.{Gauges, update_prometheus_metrics}
use server_watch.Config.{Config}
use Interfaces.{Deps}

-- What the three functions of internal/system/data return: the CPU usage; total, used and usage
-- of the memory; total, used and usage of the disk.
pub record Readings (F : Type 0) : Type 0 where
  pub cpu : Result F
  pub mem : Result (F × F × F)
  pub disk : Result (F × F × F)

pub record World {F : Type 0} (d : Deps F) : Type 0 where
  pub metrics : Metrics F
  pub last_success : Time
  pub last_error : Option Error
  pub config : Config F
  pub config_path : String
  pub repo : d.repository.St
  pub alerts : d.alert_state.St
  pub cache : d.cache.St
  pub queue : d.queue.St
  pub files : d.env.Fs
  pub gauges : Gauges F
  pub clock : ℕ

abbrev pub alert_trigger_count : ℤ
alert_trigger_count = pos 3

abbrev pub alert_resolve_count : ℤ
alert_resolve_count = pos 3

module _ {F : Type 0} (d : Deps F) where
  abbrev pub high_cpu_threshold : F
  high_cpu_threshold = d.floats.of_ℕ 80

  abbrev pub high_mem_threshold : F
  high_mem_threshold = d.floats.of_ℕ 90

  abbrev pub on_repo : {A : Type 0} → Action d.repository.St A → Action (World d) A
  on_repo act w = let (r, s) = act w.repo in (r, record w { repo = s })

  abbrev pub on_alerts : {A : Type 0} → Action d.alert_state.St A → Action (World d) A
  on_alerts act w = let (r, s) = act w.alerts in (r, record w { alerts = s })

  abbrev pub on_cache : {A : Type 0} → Action d.cache.St A → Action (World d) A
  on_cache act w = let (r, s) = act w.cache in (r, record w { cache = s })

  abbrev pub on_queue : {A : Type 0} → Action d.queue.St A → Action (World d) A
  on_queue act w = let (r, s) = act w.queue in (r, record w { queue = s })

  abbrev pub time_now : Action (World d) Time
  time_now w = (ok (d.now w.clock), record w { clock = suc w.clock })

  abbrev pub set_gauges : (Gauges F → Gauges F) → Action (World d) (Unit {0})
  set_gauges f = modify (λ w. record w { gauges = f w.gauges })

  -- An error of `CollectMetrics`: it is wrapped, kept in `lastError` and returned.
  abbrev pub reporting : {A : Type 0} → String → Action (World d) A → Action (World d) A
  reporting m act w =
      let (r, w') = act w in
      elim r [
        | ok a ↦ (ok a, w')
        | err e ↦ (err (wrap m e), record w' { last_error = some (wrap m e) })
      ]

  abbrev pub read : {A : Type 0} → Result A → Action (World d) A
  read r w = (r, w)

  -- The branch of `createAlertIfNeeded` for `alert == nil`.
  unfoldable pub create_alert : AlertType → F → F → Action (World d) (Unit {0})
  create_alert t value threshold = do
    now ← time_now
    wrapping "не удалось сохранить новый алерт" (
        on_repo (
          d.repository.save_alert (record {
            id = 0;
            kind = t;
            timestamp = now;
            threshold = threshold;
            resolved = false;
            resolved_at = none;
            value = value;
          })))
    set_gauges (λ g. record g {
      alerts_total = suc g.alerts_total;
      alerts_active_total = inc g.alerts_active_total;
    })
    logged (
        on_queue (
          d.queue.push (record {
            kind = t;
            action = action_created;
            value = value;
            threshold = threshold;
            timestamp = now;
          })))

  unfoldable pub create_alert_if_needed : AlertType → F → F → Action (World d) (Unit {0})
  create_alert_if_needed t value threshold = do
    alert ←
        wrapping "не удалось получить активный алерт" (on_repo (d.repository.get_active_alert t))
    elim alert [ none ↦ create_alert t value threshold | some _ ↦ pure tt ]

  -- The branch of `resolveAlertIfNeeded` for `alert != nil`. The clock is read twice.
  unfoldable pub resolve_alert : Alert F → AlertType → F → F → Action (World d) (Unit {0})
  resolve_alert alert t value threshold = do
    resolved_at ← time_now
    wrapping "не удалось зарезолвить алерт"
        (on_repo (d.repository.resolve_alert alert.id resolved_at))
    set_gauges (λ g. record g { alerts_active_total = dec g.alerts_active_total })
    now ← time_now
    logged (
        on_queue (
          d.queue.push (record {
            kind = t;
            action = action_resolved;
            value = value;
            threshold = threshold;
            timestamp = now;
          })))

  unfoldable pub resolve_alert_if_needed : AlertType → F → F → Action (World d) (Unit {0})
  resolve_alert_if_needed t value threshold = do
    alert ←
        wrapping "не удалось получить активный алерт" (on_repo (d.repository.get_active_alert t))
    elim alert [ none ↦ pure tt | some a ↦ resolve_alert a t value threshold ]

  abbrev pub condition_of : F → F → AlertCondition
  condition_of threshold value =
      if d.floats.lt threshold value then condition_high else condition_normal

  unfoldable pub update_alerts : Metrics F → Action (World d) AlertUpdate
  update_alerts m = do
    let cpu_condition = condition_of high_cpu_threshold m.cpu_usage
    cpu_count ←
        wrapping "не удалось обновить состояние CPU-алерта"
          (on_alerts (d.alert_state.increment_count alert_type_high_cpu cpu_condition))
    let mem_condition = condition_of high_mem_threshold m.mem_usage
    mem_count ←
        wrapping "не удалось обновить состояние Mem-алерта"
          (on_alerts (d.alert_state.increment_count alert_type_high_mem mem_condition))
    pure (record {
      cpu_count = cpu_count;
      cpu_condition = cpu_condition;
      mem_count = mem_count;
      mem_condition = mem_condition;
    })

  -- The two tests of `processAlerts` for one type.
  unfoldable pub process_type : AlertType → F → F → AlertCondition → ℤ → Action (World d) (Unit {0})
  process_type t value threshold condition count = do
    when (str_eq condition condition_high && leb_ℤ alert_trigger_count count)
        (wrapping "не удалось обработать алерт" (create_alert_if_needed t value threshold))
    when (str_eq condition condition_normal && leb_ℤ alert_resolve_count count)
        (wrapping "не удалось обработать алерт" (resolve_alert_if_needed t value threshold))

  unfoldable pub process_alerts : Metrics F → AlertUpdate → Action (World d) (Unit {0})
  process_alerts m u = do
    process_type alert_type_high_cpu m.cpu_usage high_cpu_threshold u.cpu_condition u.cpu_count
    process_type alert_type_high_mem m.mem_usage high_mem_threshold u.mem_condition u.mem_count

  -- `CollectMetrics` from the saved measurement on.
  unfoldable pub evaluate : Metrics F → Action (World d) (Unit {0})
  evaluate m = do
    update ← reporting "не удалось обновить состояния алертов" (update_alerts m)
    reporting "не удалось обработать алерты" (process_alerts m update)
    when d.has_cache (logged (on_cache (d.cache.set_metrics m)))

  unfoldable pub record_metrics : Metrics F → Action (World d) (Unit {0})
  record_metrics m = do
    reporting "не удалось сохранить метрики в БД" (on_repo (d.repository.save_metrics m))
    modify (λ w. record w { metrics = m; last_error = none; last_success = m.timestamp })
    set_gauges (update_prometheus_metrics m)

  unfoldable pub measure : Readings F → Action (World d) (Metrics F)
  measure rd = do
    usage ← reporting "не удалось получить данные о загрузке CPU" (read rd.cpu)
    mem ← reporting "не удалось получить данные о памяти" (read rd.mem)
    disk ← reporting "не удалось получить данные о диске" (read rd.disk)
    now ← time_now
    pure (record {
      cpu_usage = usage;
      mem_usage = mem.2;
      mem_used_mb = mem.1;
      mem_total_mb = mem.0;
      disk_usage = disk.2;
      disk_used = disk.1;
      disk_total = disk.0;
      timestamp = now;
    })

  unfoldable pub collect_metrics : Readings F → Action (World d) (Unit {0})
  collect_metrics rd = do m ← measure rd; record_metrics m; evaluate m
