-- ===== src/System/Reports.antt =====
-- What a round of the collector leaves for `GetHealth`.
use server_watch.Base.{
  ◌≡◌, none, some, arith, Result-cases, Result, Error, ok, err, inl, inr, Action, ◌>>◌,
}
use server_watch.Base.Int.{ℤ}
use server_watch.Model.{
  Metrics, AlertType, AlertCondition, AlertUpdate, alert_type_high_cpu, alert_type_high_mem,
}
use server_watch.System.Interfaces.{Deps}
use server_watch.System.{
  World, Readings, high_cpu_threshold, high_mem_threshold, create_alert, create_alert_if_needed,
  resolve_alert, resolve_alert_if_needed, process_type, process_alerts, update_alerts, measure,
  record_metrics, evaluate, collect_metrics,
}

module _ {F : Type 0} (d : Deps F) where
  -- What `GetHealth` and `GetMetrics` read is as before.
  pub record IsKept (w w' : World d) : Type 0 where
    pub metrics : w'.metrics ≡ w.metrics
    pub last_success : w'.last_success ≡ w.last_success
    pub last_error : w'.last_error ≡ w.last_error
    pub cache : w'.cache ≡ w.cache

  create_alert_if_needed-IsKept :
      (t : AlertType) (v th : F) (w : World d) → IsKept w (create_alert_if_needed d t v th w).1
  unfolding create_alert_if_needed create_alert
  create_alert_if_needed-IsKept t v th w = ground arith

  resolve_alert_if_needed-IsKept :
      (t : AlertType) (v th : F) (w : World d) → IsKept w (resolve_alert_if_needed d t v th w).1
  unfolding resolve_alert_if_needed resolve_alert
  resolve_alert_if_needed-IsKept t v th w = ground arith

  process_type-IsKept :
      (t : AlertType) (v th : F) (c : AlertCondition) (n : ℤ) (w : World d)
      → IsKept w (process_type d t v th c n w).1
  unfolding process_type
  process_type-IsKept t v th c n w =
      let w' = (create_alert_if_needed d t v th w).1 in
      ground (
        arith,
        create_alert_if_needed-IsKept t v th w,
        resolve_alert_if_needed-IsKept t v th w,
        resolve_alert_if_needed-IsKept t v th w',
      )

  pub process_alerts-IsKept :
      (m : Metrics F) (u : AlertUpdate) (w : World d) → IsKept w (process_alerts d m u w).1
  unfolding process_alerts
  process_alerts-IsKept m u w =
      let cpu =
        process_type d alert_type_high_cpu m.cpu_usage (high_cpu_threshold d) u.cpu_condition
          u.cpu_count in
      ground (
        arith,
        process_type-IsKept alert_type_high_cpu m.cpu_usage (high_cpu_threshold d) u.cpu_condition
            u.cpu_count w,
        process_type-IsKept alert_type_high_mem m.mem_usage (high_mem_threshold d) u.mem_condition
            u.mem_count (cpu w).1,
      )

  pub update_alerts-IsKept : (m : Metrics F) (w : World d) → IsKept w (update_alerts d m w).1
  unfolding update_alerts
  update_alerts-IsKept m w = ground arith

  -- What `lastError` holds after a call with this result.
  abbrev pub Reports : {A : Type 0} → Result A → World d → Type 0
  Reports (ok _) w = w.last_error ≡ none
  Reports (err e) w = w.last_error ≡ some e

  abbrev pub IsDated : World d → Type 0
  IsDated w = w.metrics.timestamp ≡ w.last_success

  pub evaluate-Reports :
      (m : Metrics F) (w : World d)
      → w.last_error ≡ none
      → Reports (evaluate d m w).0 (evaluate d m w).1
  unfolding evaluate
  evaluate-Reports m w calm = elim (Result-cases (update_alerts d m w).0) [
    | inl (u, e) ↦
        ground (arith, update_alerts-IsKept m w, process_alerts-IsKept m u (update_alerts d m w).1)
    | inr (x, e) ↦ ground arith
  ]

  pub evaluate-IsDated : (m : Metrics F) (w : World d) → IsDated w → IsDated (evaluate d m w).1
  unfolding evaluate
  evaluate-IsDated m w dated = elim (Result-cases (update_alerts d m w).0) [
    | inl (u, e) ↦
        ground (arith, update_alerts-IsKept m w, process_alerts-IsKept m u (update_alerts d m w).1)
    | inr (x, e) ↦ ground (arith, update_alerts-IsKept m w)
  ]

  measure-Reports :
      (rd : Readings F) (w : World d) {e : Error}
      → (measure d rd w).0 ≡ err e
      → (measure d rd w).1.last_error ≡ some e
  unfolding measure
  measure-Reports rd w h = ground arith

  pub measured-Reports :
      (rd : Readings F) (w : World d)
      → w.last_error ≡ none
      → Reports (measure d rd w).0 (measure d rd w).1
  unfolding measure
  measured-Reports rd w calm = ground (arith, calm)

  pub measure-IsDated : (rd : Readings F) (w : World d) → IsDated w → IsDated (measure d rd w).1
  unfolding measure
  measure-IsDated rd w dated = ground arith

  pub record_metrics-Reports :
      (m : Metrics F) (w : World d) → Reports (record_metrics d m w).0 (record_metrics d m w).1
  unfolding record_metrics
  record_metrics-Reports m w = ground arith

  pub record_metrics-IsDated :
      (m : Metrics F) (w : World d) → IsDated w → IsDated (record_metrics d m w).1
  unfolding record_metrics
  record_metrics-IsDated m w dated = ground arith

  abbrev save_and_evaluate : Metrics F → Action (World d) (Unit {0})
  save_and_evaluate m = record_metrics d m >> evaluate d m

  save_and_evaluate-Reports :
      (m : Metrics F) (w : World d) → Reports (save_and_evaluate m w).0 (save_and_evaluate m w).1
  save_and_evaluate-Reports m w = elim (Result-cases (record_metrics d m w).0) [
    | inl (u, e) ↦
        ground (arith, e, record_metrics-Reports m w, evaluate-Reports m (record_metrics d m w).1)
    | inr (x, e) ↦ ground (arith, e, record_metrics-Reports m w)
  ]

  save_and_evaluate-IsDated :
      (m : Metrics F) (w : World d) → IsDated w → IsDated (save_and_evaluate m w).1
  save_and_evaluate-IsDated m w dated =
      let recorded = record_metrics-IsDated m w dated in
      elim (Result-cases (record_metrics d m w).0) [
        | inl (u, e) ↦ ground (arith, e, evaluate-IsDated m (record_metrics d m w).1 recorded)
        | inr (x, e) ↦ ground (arith, e, recorded)
      ]

  -- After any `CollectMetrics`, `lastError` is `nil` if it returned `nil`, and else its error.
  pub collect_metrics-Reports :
      (rd : Readings F) (w : World d)
      → Reports (collect_metrics d rd w).0 (collect_metrics d rd w).1
  unfolding collect_metrics
  collect_metrics-Reports rd w = elim (Result-cases (measure d rd w).0) [
    | inl (m, e) ↦ ground (arith, e, save_and_evaluate-Reports m (measure d rd w).1)
    | inr (x, e) ↦ ground (arith, e, measure-Reports rd w e)
  ]

  pub collect_metrics-IsDated :
      (rd : Readings F) (w : World d) → IsDated w → IsDated (collect_metrics d rd w).1
  unfolding collect_metrics
  collect_metrics-IsDated rd w dated =
      let measured = measure-IsDated rd w dated in
      elim (Result-cases (measure d rd w).0) [
        | inl (m, e) ↦ ground (arith, e, save_and_evaluate-IsDated m (measure d rd w).1 measured)
        | inr (x, e) ↦ ground (arith, e, measured)
      ]
