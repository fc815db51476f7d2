-- ===== src/System/Alerting.antt =====
-- What `createAlertIfNeeded`, `resolveAlertIfNeeded` and the tests of `processAlerts` do to the
-- active alerts, the gauges and the queue, over a repository that keeps its contract.
use server_watch.Base.{
  ◌≡◌, refl, inl, inr, Bool, true, false, ◌&&◌, String, str_eq, str_eq_iff, ok, first_guard,
  second_guard, subst, ap, ◌∙◌, arith, if◌then◌else◌, Bool-cases, Option-cases,
}
use server_watch.Base.Int.{ℤ, leb_ℤ}
use server_watch.Model.{
  AlertType, AlertCondition, valid_alert_type, condition_high, condition_normal,
}
use server_watch.System.Interfaces.{Deps, RepositoryLaws}
use server_watch.System.{
  World, alert_trigger_count, alert_resolve_count, create_alert_if_needed, resolve_alert_if_needed,
  process_type,
}
use server_watch.System.Turns.{
  raised, Turns, create_alert-Turns, resolve_alert-Turns, read_only-Turns, after_read-Turns,
}

-- No condition is both high and normal.
not_both :
    (c : AlertCondition) (a b : Bool)
    → (str_eq c condition_high && a) ≡ true
    → (str_eq c condition_normal && b) ≡ false
not_both c a b h = let e : c ≡ condition_high = (str_eq_iff _ _).0 (ground arith) in rw e

module _ {F : Type 0} (d : Deps F) (laws : RepositoryLaws d.repository) where
  open laws use {active, Ready}

  -- The alert of a type after its turn: three high values in a row raise it, three normal ones
  -- clear it, and otherwise it stays.
  abbrev pub decide_alert : AlertCondition → ℤ → Bool → Bool
  decide_alert c n before =
      if str_eq c condition_high && leb_ℤ alert_trigger_count n
      then true
      else if str_eq c condition_normal && leb_ℤ alert_resolve_count n
      then false
      else before

  create_alert_if_needed-Turns :
      (t : AlertType) (value threshold : F) (w : World d)
      → valid_alert_type t ≡ true
      → Ready w.repo
      → (w' : World d) × (create_alert_if_needed d t value threshold w ≡ (ok tt, w'))
        × Turns d laws t value threshold true w w'
  unfolding create_alert_if_needed
  create_alert_if_needed-Turns t value threshold w v up =
      let (s, got, up', same) = laws.get_active_alert_law t w.repo v up in
      let w1 : World d = record w { repo = s } in
      elim (Option-cases (active w.repo t)) [
        | inl quiet ↦
            let (w', made, turn) =
              create_alert-Turns d laws t value threshold w1 v up' (same t ∙ quiet) in
            (w', ground arith, after_read-Turns d laws t value threshold true w w' s same turn)
        | inr (a, already) ↦ (
          w1,
          ground arith,
          subst (λ b. Turns d laws t value threshold b w w1) (ap raised already)
              (read_only-Turns d laws t value threshold w s up' same),
        )
      ]

  resolve_alert_if_needed-Turns :
      (t : AlertType) (value threshold : F) (w : World d)
      → valid_alert_type t ≡ true
      → Ready w.repo
      → (w' : World d) × (resolve_alert_if_needed d t value threshold w ≡ (ok tt, w'))
        × Turns d laws t value threshold false w w'
  unfolding resolve_alert_if_needed
  resolve_alert_if_needed-Turns t value threshold w v up =
      let (s, got, up', same) = laws.get_active_alert_law t w.repo v up in
      let w1 : World d = record w { repo = s } in
      elim (Option-cases (active w.repo t)) [
        | inl quiet ↦ (
          w1,
          ground arith,
          subst (λ b. Turns d laws t value threshold b w w1) (ap raised quiet)
              (read_only-Turns d laws t value threshold w s up' same),
        )
        | inr (a, before) ↦
            let (w', made, turn) =
              resolve_alert-Turns d laws t value threshold a w1 v up' (same t ∙ before) in
            (w', ground arith, after_read-Turns d laws t value threshold false w w' s same turn)
      ]

  -- Over a repository that keeps its contract and is ready, the tests of `processAlerts` for a
  -- valid type succeed: the alert of the type becomes active after three or more high measurements
  -- in a row, inactive after three or more normal ones, and stays as it was otherwise; the other
  -- types' alerts stay; the gauge of active alerts moves by one and one notification is pushed
  -- exactly if the alert changed; the alert states, the metrics, the health fields and the
  -- configuration are kept.
  pub process_type-Turns :
      (t : AlertType) (value threshold : F) (c : AlertCondition) (n : ℤ) (w : World d)
      → valid_alert_type t ≡ true
      → Ready w.repo
      → (w' : World d) × (process_type d t value threshold c n w ≡ (ok tt, w'))
        × Turns d laws t value threshold (decide_alert c n (raised (active w.repo t))) w w'
  unfolding process_type
  process_type-Turns t value threshold c n w v up =
      let msg : String = "не удалось обработать алерт" in
      let create_it = create_alert_if_needed d t value threshold in
      let resolve_it = resolve_alert_if_needed d t value threshold in
      let is_high = str_eq c condition_high && leb_ℤ alert_trigger_count n in
      let is_normal = str_eq c condition_normal && leb_ℤ alert_resolve_count n in
      elim (Bool-cases is_high) [
        | inl high ↦
            let (w', made, turn) = create_alert_if_needed-Turns t value threshold w v up in
            let other = not_both c _ (leb_ℤ alert_resolve_count n) high in
            (
              w',
              first_guard msg msg create_it resolve_it is_high is_normal high other made,
              rw high turn,
            )
        | inr not_high ↦ elim (Bool-cases is_normal) [
          | inl normal ↦
              let (w', made, turn) = resolve_alert_if_needed-Turns t value threshold w v up in
              (
                w',
                second_guard msg msg create_it resolve_it is_high is_normal not_high normal made,
                rw (not_high, normal) turn,
              )
          | inr between ↦ (
            w,
            rw (not_high, between),
            rw (not_high, between)
                (read_only-Turns d laws t value threshold w w.repo up (λ u. refl)),
          )
        ]
      ]
