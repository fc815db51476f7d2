-- ===== src/Alerts/Fallback/Healthy.antt =====
-- The fallback store while Redis answers.
use server_watch.Base.{◌≡◌, Bool, true, false, ok, arith}
use server_watch.Model.{AlertType, AlertCondition, AlertState, valid_alert_type}
use server_watch.Alerts.Store.{AlertStateBackend, to_store, bump, with_state, HasRoom, StoreLaws}
use server_watch.Alerts.Fallback.{
  Fallback, try_recovery, increment_count, is_active, set_active, fallback_store,
}

module _ (mem redis : AlertStateBackend) (laws : StoreLaws (to_store redis)) where
  abbrev pub Ready : Fallback mem redis → Type 0
  Ready f = (f.redis_failed ≡ false) × laws.Ready f.redis_st

  abbrev pub view : Fallback mem redis → AlertType → AlertState
  view f = laws.view f.redis_st

  -- While Redis serves calls by its contract and no failure was noticed, `IncrementCount` of the
  -- fallback store for a valid type with room in its Redis counter returns the count of Redis and
  -- changes its states by exactly this measurement, and the store stays healthy.
  pub increment_count_healthy :
      (t : AlertType) (c : AlertCondition) (f : Fallback mem redis)
      → valid_alert_type t ≡ true
      → Ready f
      → HasRoom (view f t)
      → (f' : Fallback mem redis) × (increment_count mem redis t c f
          ≡ (ok (bump c (view f t)).count, f'))
        × Ready f'
        × ((u : AlertType)
            → valid_alert_type u ≡ true
            → view f' u ≡ with_state t (bump c (view f t)) (view f) u)
  unfolding increment_count try_recovery
  increment_count_healthy t c f v (healthy, ready) room =
      let (s', e, r', val) = laws.increment_law t c f.redis_st v ready room in
      (record f { redis_st = s' }, ground arith, (healthy, r'), val)

  pub is_active_healthy :
      (t : AlertType) (f : Fallback mem redis)
      → valid_alert_type t ≡ true
      → Ready f
      → (f' : Fallback mem redis) × (is_active mem redis t f ≡ (ok (view f t).active, f'))
        × Ready f'
        × ((u : AlertType) → view f' u ≡ view f u)
  unfolding is_active
  is_active_healthy t f v (healthy, ready) =
      let (s', e, r', val) = laws.is_active_law t f.redis_st v ready in
      (record f { redis_st = s' }, ground arith, (healthy, r'), val)

  pub set_active_healthy :
      (t : AlertType) (b : Bool) (f : Fallback mem redis)
      → valid_alert_type t ≡ true
      → Ready f
      → (f' : Fallback mem redis) × (set_active mem redis t b f ≡ (ok tt, f'))
        × Ready f'
        × ((u : AlertType)
            → valid_alert_type u ≡ true
            → view f' u ≡ with_state t (record (view f t) { active = b }) (view f) u)
  unfolding set_active
  set_active_healthy t b f v (healthy, ready) =
      let (s', e, r', val) = laws.set_active_law t b f.redis_st v ready in
      (record f { redis_st = s' }, ground arith, (healthy, r'), val)

-- The contract of the fallback store in normal operation.
abbrev pub healthy_laws :
    (mem redis : AlertStateBackend)
    → StoreLaws (to_store redis)
    → StoreLaws (fallback_store mem redis)
healthy_laws mem redis laws = record {
  view = view mem redis laws;
  Ready = Ready mem redis laws;
  increment_law = increment_count_healthy mem redis laws;
  is_active_law = is_active_healthy mem redis laws;
  set_active_law = set_active_healthy mem redis laws;
}
