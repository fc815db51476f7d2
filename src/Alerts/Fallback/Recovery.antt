-- ===== src/Alerts/Fallback/Recovery.antt =====
-- The fallback store when Redis answers again after an outage.
use server_watch.Base.{
  ◌≡◌, refl, true, false, str_eq, ok, err, Error, inl, inr, arith, ◌∙◌, ap, ap₂,
}
use server_watch.Base.Int.{pos, neg_part}
use server_watch.Model.{
  AlertType, AlertCondition, AlertState, zero_state, valid_alert_type, valid_alert_type-cases,
  alert_type_high_mem, alert_type_high_cpu,
}
use server_watch.Alerts.Store.{
  AlertStateBackend, to_store, bump, with_state, HasRoom, StoreLaws, GivesSnapshots, TakesSnapshots,
}
use server_watch.Alerts.Fallback.{Fallback, resync_all, try_recovery, increment_count}

neg_part-with_state :
    (t u : AlertType) (c : AlertCondition) (st other : AlertState)
    → neg_part st.count ≡ 0
    → neg_part other.count ≡ 0
    → neg_part (with_state t (bump c st) (λ _. other) u).count ≡ 0
neg_part-with_state t u c st other h k = ground arith

bump-zero_state : (d : AlertCondition) → (bump d zero_state).count ≡ pos 1
bump-zero_state d = ground arith

module _ (mem redis : AlertStateBackend) (mem_laws : StoreLaws (to_store mem))
    (gives : GivesSnapshots mem mem_laws) (redis_laws : StoreLaws (to_store redis))
    (takes : TakesSnapshots redis redis_laws) where
  -- Both stores serve calls, and the counters of the in-memory store are not negative.
  abbrev pub Recoverable : Fallback mem redis → Type 0
  Recoverable f =
      mem_laws.Ready f.memory
      × redis_laws.Ready f.redis_st
      × ((u : AlertType)
          → valid_alert_type u ≡ true
          → neg_part (mem_laws.view f.memory u).count ≡ 0)

  resync_all_ok :
      (f : Fallback mem redis)
      → Recoverable f
      → (s' : redis.St) × (resync_all mem redis f ≡ (ok tt, record f { redis_st = s' }))
        × redis_laws.Ready s'
        × ((u : AlertType)
            → valid_alert_type u ≡ true
            → redis_laws.view s' u ≡ mem_laws.view f.memory u)
  unfolding resync_all
  resync_all_ok f (ready, up, np) =
      let state_mem = mem_laws.view f.memory alert_type_high_mem in
      let state_cpu = mem_laws.view f.memory alert_type_high_cpu in
      let got_mem = gives.get_state_law alert_type_high_mem f.memory refl ready in
      let got_cpu = gives.get_state_law alert_type_high_cpu f.memory refl ready in
      let (s1, set_mem, up1, view1) =
        takes.set_state_law alert_type_high_mem state_mem f.redis_st refl up
          (np alert_type_high_mem refl) in
      let (s2, set_cpu, up2, view2) =
        takes.set_state_law alert_type_high_cpu state_cpu s1 refl up1
          (np alert_type_high_cpu refl) in
      (
        s2,
        ground arith,
        up2,
        λ u w. elim (valid_alert_type-cases u w) [
          | inl e ↦ rw e (view2 alert_type_high_cpu refl)
          | inr e ↦ rw e (view2 alert_type_high_mem refl ∙ view1 alert_type_high_mem refl)
        ],
      )

  -- After a failure was noticed, and once both stores serve calls by their contracts, the in-
  -- memory store gives and Redis takes snapshots, the in-memory counters are not negative and the
  -- one of this valid type has room, `IncrementCount` of the fallback store counts on from the in-
  -- memory state, ends the outage, leaves the in-memory store alone, and leaves Redis with the in-
  -- memory states of both types and this one measurement.
  pub increment_count_recovers :
      (t : AlertType) (c : AlertCondition) (f : Fallback mem redis)
      → valid_alert_type t ≡ true
      → f.redis_failed ≡ true
      → Recoverable f
      → HasRoom (mem_laws.view f.memory t)
      → (f' : Fallback mem redis) × (increment_count mem redis t c f
          ≡ (ok (bump c (mem_laws.view f.memory t)).count, f'))
        × (f'.redis_failed ≡ false)
        × redis_laws.Ready f'.redis_st
        × (f'.memory ≡ f.memory)
        × ((u : AlertType)
            → valid_alert_type u ≡ true
            → redis_laws.view f'.redis_st u
              ≡ with_state t (bump c (mem_laws.view f.memory t)) (mem_laws.view f.memory) u)
  unfolding increment_count try_recovery
  increment_count_recovers t c f v failed rec room =
      let (s1, resync, up1, same) = resync_all_ok f rec in
      let (s2, inc, up2, val) = redis_laws.increment_law t c s1 v up1 (rw (same t v) room) in
      (
        record f { redis_st = s2; redis_failed = false },
        ground (arith, same t v),
        refl,
        up2,
        refl,
        λ u w. val u w ∙ ap₂ (λ x y. with_state t (bump c x) (λ _. y) u) (same t v) (same u w),
      )

  -- The first failed call of Redis: the in-memory store counts, and the failure is remembered.
  pub increment_count_falls_back :
      (t : AlertType) (c : AlertCondition) (f : Fallback mem redis) {e : Error} {s' : redis.St}
      → valid_alert_type t ≡ true
      → f.redis_failed ≡ false
      → redis.increment_count t c f.redis_st ≡ (err e, s')
      → mem_laws.Ready f.memory
      → HasRoom (mem_laws.view f.memory t)
      → (m' : mem.St) × (increment_count mem redis t c f ≡ (
        ok (bump c (mem_laws.view f.memory t)).count,
        record { memory = m'; redis_st = s'; redis_failed = true },
      ))
        × mem_laws.Ready m'
        × ((u : AlertType)
            → valid_alert_type u ≡ true
            → mem_laws.view m' u
              ≡ with_state t (bump c (mem_laws.view f.memory t)) (mem_laws.view f.memory) u)
  unfolding increment_count try_recovery
  increment_count_falls_back t c f v healthy failed ready room =
      let (m', inc, r', val) = mem_laws.increment_law t c f.memory v ready room in
      (m', ground arith, r', val)

  -- If one `IncrementCount` of Redis fails before a failure was noticed, and afterwards both
  -- stores serve calls by their contracts, the in-memory store gives and Redis takes snapshots,
  -- the in-memory counters are not negative and this type's has room, then the next
  -- `IncrementCount` for the other valid type returns 1 if the in-memory state of that type is the
  -- zero state, whatever count Redis held.
  pub increment_count_transient_failure :
      (t u : AlertType) (c d : AlertCondition) (f : Fallback mem redis) {e : Error} {s' : redis.St}
      → valid_alert_type t ≡ true
      → valid_alert_type u ≡ true
      → str_eq u t ≡ false
      → f.redis_failed ≡ false
      → redis.increment_count t c f.redis_st ≡ (err e, s')
      → Recoverable (record f { redis_st = s' })
      → HasRoom (mem_laws.view f.memory t)
      → mem_laws.view f.memory u ≡ zero_state
      → (increment_count mem redis u d (increment_count mem redis t c f).1).0 ≡ ok (pos 1)
  increment_count_transient_failure t u c d f {e} {s'} v w ne healthy failed rec room fresh =
      let (m', first, r', val) = increment_count_falls_back t c f v healthy failed rec.0 room in
      let f1 : Fallback mem redis = record f { memory = m'; redis_st = s'; redis_failed = true } in
      let now_zero : mem_laws.view m' u ≡ zero_state = val u w ∙ rw (ne, fresh) in
      let rec1 : Recoverable f1 = (
        r',
        rec.1,
        λ x wx. rw (val x wx) (
            neg_part-with_state t x c (mem_laws.view f.memory t) (mem_laws.view f.memory x)
              (rec.2 t v) (rec.2 x wx)),
      ) in
      let (f2, second, _, _, _, _) =
        increment_count_recovers u d f1 w refl rec1 (rw now_zero (omega arith)) in
      rw (first, second, now_zero) (ap ok (bump-zero_state d))
