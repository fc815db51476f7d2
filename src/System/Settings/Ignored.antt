-- ===== src/System/Settings/Ignored.antt =====
-- The rounds of the collector and the configuration.
use server_watch.Base.{
  ◌≡◌, refl, Bool, true, false, Option, none, some, arith, Result-cases, str_eq, ◌&&◌, String, ◌>>◌,
  when, logged, pure, wrapping, inl, inr, Action, ◌>>=◌,
}
use server_watch.Model.{
  Metrics, Alert, AlertUpdate, condition_high, condition_normal, alert_type_high_cpu,
  alert_type_high_mem, AlertType, AlertCondition,
}
use server_watch.Base.Int.{ℤ, leb_ℤ}
use server_watch.Config.{Config}
use server_watch.System.Interfaces.{Deps}
use server_watch.System.{
  World, Readings, high_cpu_threshold, high_mem_threshold, alert_trigger_count, alert_resolve_count,
  on_cache, on_repo, reporting, measure, record_metrics, evaluate, create_alert,
  create_alert_if_needed, resolve_alert, resolve_alert_if_needed, process_type, process_alerts,
  update_alerts, collect_metrics,
}

module _ {F : Type 0} (d : Deps F) where
  abbrev pub with_config : Config F → World d → World d
  with_config c w = record w { config = c }

  -- An operation that neither reads nor writes the configuration.
  abbrev pub Ignores : {A : Type 0} → Action (World d) A → Type 0
  Ignores act =
      (c : Config F) (w : World d) → act (with_config c w) ≡ ((act w).0, with_config c (act w).1)

  create_alert-Ignores : (t : AlertType) (v th : F) → Ignores (create_alert d t v th)
  unfolding create_alert
  create_alert-Ignores t v th c w = ground arith

  resolve_alert-Ignores : (a : _) (t : AlertType) (v th : F) → Ignores (resolve_alert d a t v th)
  unfolding resolve_alert
  resolve_alert-Ignores a t v th c w = ground arith

  pub measure-Ignores : (rd : Readings F) → Ignores (measure d rd)
  unfolding measure
  measure-Ignores rd c w = ground arith

  pub record_metrics-Ignores : (m : Metrics F) → Ignores (record_metrics d m)
  unfolding record_metrics
  record_metrics-Ignores m c w = ground arith

  update_alerts-Ignores : (m : Metrics F) → Ignores (update_alerts d m)
  unfolding update_alerts
  update_alerts-Ignores m c w = ground arith

  bind-Ignores :
      {A B : Type 0} (m : Action (World d) A) (f : A → Action (World d) B)
      → Ignores m
      → ((a : A) → Ignores (f a))
      → Ignores (m >>= f)
  bind-Ignores m f im ih c w = elim (Result-cases (m w).0) [
    | inl (a, e) ↦ ground (arith, im c w, ih a c (m w).1)
    | inr (x, e) ↦ ground (arith, im c w)
  ]

  lookup_active-Ignores :
      (t : AlertType)
      → Ignores (
          wrapping "не удалось получить активный алерт"
            (on_repo d (d.repository.get_active_alert t)))
  lookup_active-Ignores t c w = ground arith

  create_alert_if_needed-Ignores :
      (t : AlertType) (v th : F) → Ignores (create_alert_if_needed d t v th)
  unfolding create_alert_if_needed
  create_alert_if_needed-Ignores t v th =
      bind-Ignores
        (wrapping "не удалось получить активный алерт"
          (on_repo d (d.repository.get_active_alert t)))
        (λ alert. elim alert [ none ↦ create_alert d t v th | some _ ↦ pure tt ])
        (lookup_active-Ignores t) branch
    where
      branch :
          (alert : Option (Alert F))
          → Ignores (elim alert as (λ _. Action (World d) (Unit {0})) [
            | none ↦ create_alert d t v th
            | some _ ↦ pure tt
          ])
      branch none c w = create_alert-Ignores t v th c w
      branch (some _) c w = refl

  resolve_alert_if_needed-Ignores :
      (t : AlertType) (v th : F) → Ignores (resolve_alert_if_needed d t v th)
  unfolding resolve_alert_if_needed
  resolve_alert_if_needed-Ignores t v th =
      bind-Ignores
        (wrapping "не удалось получить активный алерт"
          (on_repo d (d.repository.get_active_alert t)))
        (λ alert. elim alert [ none ↦ pure tt | some a ↦ resolve_alert d a t v th ])
        (lookup_active-Ignores t) branch
    where
      branch :
          (alert : Option (Alert F))
          → Ignores (elim alert as (λ _. Action (World d) (Unit {0})) [
            | none ↦ pure tt
            | some a ↦ resolve_alert d a t v th
          ])
      branch none c w = refl
      branch (some a) c w = resolve_alert-Ignores a t v th c w

  wrapping-Ignores :
      (m : String) (act : Action (World d) (Unit {0})) → Ignores act → Ignores (wrapping m act)
  wrapping-Ignores m act h c w = ground (arith, h c w)

  when-Ignores : (b : Bool) (act : Action (World d) (Unit {0})) → Ignores act → Ignores (when b act)
  when-Ignores true act h c w = h c w
  when-Ignores false act h c w = refl

  reporting-Ignores :
      {A : Type 0} (m : String) (act : Action (World d) A)
      → Ignores act
      → Ignores (reporting d m act)
  reporting-Ignores m act h c w = ground (arith, h c w)

  guarded-Ignores :
      (b : Bool) (act : Action (World d) (Unit {0}))
      → Ignores act
      → Ignores (when b (wrapping "не удалось обработать алерт" act))
  guarded-Ignores b act h =
      when-Ignores b (wrapping "не удалось обработать алерт" act)
        (wrapping-Ignores "не удалось обработать алерт" act h)

  process_type-Ignores :
      (t : AlertType) (v th : F) (c : AlertCondition) (n : ℤ) → Ignores (process_type d t v th c n)
  unfolding process_type
  process_type-Ignores t v th c n =
      bind-Ignores
        (when (str_eq c condition_high && leb_ℤ alert_trigger_count n)
          (wrapping "не удалось обработать алерт" (create_alert_if_needed d t v th)))
        (λ _.
          when (str_eq c condition_normal && leb_ℤ alert_resolve_count n)
            (wrapping "не удалось обработать алерт" (resolve_alert_if_needed d t v th)))
        (guarded-Ignores _ (create_alert_if_needed d t v th)
          (create_alert_if_needed-Ignores t v th))
        (λ _.
          guarded-Ignores _ (resolve_alert_if_needed d t v th)
            (resolve_alert_if_needed-Ignores t v th))

  process_alerts-Ignores : (m : Metrics F) (u : AlertUpdate) → Ignores (process_alerts d m u)
  unfolding process_alerts
  process_alerts-Ignores m u c w = ground (
    arith,
    process_type-Ignores alert_type_high_cpu m.cpu_usage (high_cpu_threshold d) u.cpu_condition
        u.cpu_count c w,
    process_type-Ignores alert_type_high_mem m.mem_usage (high_mem_threshold d) u.mem_condition
        u.mem_count c
        (process_type d alert_type_high_cpu m.cpu_usage (high_cpu_threshold d) u.cpu_condition
          u.cpu_count w).1,
  )

  cache-Ignores :
      (m : Metrics F) → Ignores (when d.has_cache (logged (on_cache d (d.cache.set_metrics m))))
  cache-Ignores m =
      when-Ignores d.has_cache (logged (on_cache d (d.cache.set_metrics m))) (λ c w. refl)

  pub evaluate-Ignores : (m : Metrics F) → Ignores (evaluate d m)
  unfolding evaluate
  evaluate-Ignores m =
      bind-Ignores (reporting d "не удалось обновить состояния алертов" (update_alerts d m))
        (λ update.
          reporting d "не удалось обработать алерты" (process_alerts d m update)
          >> when d.has_cache (logged (on_cache d (d.cache.set_metrics m))))
        (reporting-Ignores "не удалось обновить состояния алертов" (update_alerts d m)
          (update_alerts-Ignores m))
        (λ update.
          bind-Ignores (reporting d "не удалось обработать алерты" (process_alerts d m update))
            (λ _. when d.has_cache (logged (on_cache d (d.cache.set_metrics m))))
            (reporting-Ignores "не удалось обработать алерты" (process_alerts d m update)
              (process_alerts-Ignores m update))
            (λ _. cache-Ignores m))

  -- For any readings, `CollectMetrics` gives the same result and the same effects under any
  -- configuration, and keeps the configuration: the thresholds and counts that are configured have
  -- no part in it.
  pub collect_metrics_ignores_config :
      (rd : Readings F) (c : Config F) (w : World d)
      → collect_metrics d rd (record w { config = c })
        ≡ ((collect_metrics d rd w).0, record (collect_metrics d rd w).1 { config = c })
  unfolding collect_metrics
  collect_metrics_ignores_config rd =
      bind-Ignores (measure d rd) (λ m. record_metrics d m >> evaluate d m) (measure-Ignores rd)
        (λ m.
          bind-Ignores (record_metrics d m) (λ _. evaluate d m) (record_metrics-Ignores m)
            (λ _. evaluate-Ignores m))
