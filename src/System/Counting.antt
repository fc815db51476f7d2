-- ===== src/System/Counting.antt =====
-- `updateAlerts` on a system whose stores keep their contracts: both counters take their measurement.
use server_watch.Base.{◌≡◌, refl, Bool, ok, arith, ap, ◌∙◌}
use server_watch.Model.{
  AlertType, AlertCondition, AlertState, Metrics, alert_type_high_cpu, alert_type_high_mem,
}
use server_watch.Alerts.Store.{StoreLaws, bump, HasRoom}
use server_watch.System.Interfaces.{Deps, RepositoryLaws}
use server_watch.System.{World, condition_of, high_cpu_threshold, high_mem_threshold, update_alerts}
use server_watch.System.Turns.{raised}

module _ {F : Type 0} (d : Deps F) (repo_laws : RepositoryLaws d.repository)
    (store_laws : StoreLaws d.alert_state) where
  abbrev pub cpu_condition : F → AlertCondition
  cpu_condition = condition_of d (high_cpu_threshold d)

  abbrev pub mem_condition : F → AlertCondition
  mem_condition = condition_of d (high_mem_threshold d)

  abbrev pub is_raised : World d → AlertType → Bool
  is_raised w t = raised (repo_laws.active w.repo t)

  abbrev pub state_of : World d → AlertType → AlertState
  state_of w = store_laws.view w.alerts

  -- The stores serve calls, and the counters have room.
  pub record IsSteady (w : World d) : Type 0 where
    pub repo_ready : repo_laws.Ready w.repo
    pub store_ready : store_laws.Ready w.alerts
    pub cpu_room : HasRoom (state_of w alert_type_high_cpu)
    pub mem_room : HasRoom (state_of w alert_type_high_mem)

  -- Both counters take their measurement.
  pub update_alerts_result :
      (m : Metrics F) (w : World d)
      → IsSteady w
      → let cpu = bump (cpu_condition m.cpu_usage) (state_of w alert_type_high_cpu) in
        let mem = bump (mem_condition m.mem_usage) (state_of w alert_type_high_mem) in
        (s' : d.alert_state.St) × (update_alerts d m w ≡ (
          ok (record {
            cpu_count = cpu.count;
            cpu_condition = cpu_condition m.cpu_usage;
            mem_count = mem.count;
            mem_condition = mem_condition m.mem_usage;
          }),
          record w { alerts = s' },
        ))
        × store_laws.Ready s'
        × (store_laws.view s' alert_type_high_cpu ≡ cpu)
        × (store_laws.view s' alert_type_high_mem ≡ mem)
  unfolding update_alerts
  update_alerts_result m w st =
      let (s1, inc_cpu, up1, view1) =
        store_laws.increment_law alert_type_high_cpu (cpu_condition m.cpu_usage) w.alerts refl
          st.store_ready st.cpu_room in
      let same : store_laws.view s1 alert_type_high_mem ≡ state_of w alert_type_high_mem =
        view1 alert_type_high_mem refl in
      let (s2, inc_mem, up2, view2) =
        store_laws.increment_law alert_type_high_mem (mem_condition m.mem_usage) s1 refl up1
          (rw same st.mem_room) in
      (
        s2,
        ground (arith, same),
        up2,
        view2 alert_type_high_cpu refl ∙ view1 alert_type_high_cpu refl,
        view2 alert_type_high_mem refl ∙ ap (bump (mem_condition m.mem_usage)) same,
      )
