-- ===== src/Alerts/Fallback/Outage.antt =====
-- The fallback store while every call of Redis fails.
use server_watch.Base.{◌≡◌, refl, Bool, true, ok, err, Error, wrap, Bool-cases, inl, inr, arith}
use server_watch.Model.{
  AlertType, AlertCondition, AlertState, valid_alert_type, alert_type_high_mem,
}
use server_watch.Alerts.Store.{
  AlertStateBackend, to_store, bump, with_state, HasRoom, StoreLaws, GivesSnapshots,
}
use server_watch.Alerts.Fallback.{
  Fallback, resync_all, try_recovery, increment_count, is_active, set_active, fallback_store,
}

-- A backend that fails and goes on failing.
pub record Fails (b : AlertStateBackend) : Type 1 where
  pub Down : b.St → Type 0
  pub increment_fails :
      (t : AlertType) (c : AlertCondition) (s : b.St)
      → Down s
      → (e : Error) × (s' : b.St) × (b.increment_count t c s ≡ (err e, s')) × Down s'
  pub is_active_fails :
      (t : AlertType) (s : b.St)
      → Down s
      → (e : Error) × (s' : b.St) × (b.is_active t s ≡ (err e, s')) × Down s'
  pub set_active_fails :
      (t : AlertType) (a : Bool) (s : b.St)
      → Down s
      → (e : Error) × (s' : b.St) × (b.set_active t a s ≡ (err e, s')) × Down s'
  pub set_state_fails :
      (t : AlertType) (new : AlertState) (s : b.St)
      → Down s
      → (e : Error) × (s' : b.St) × (b.set_state t new s ≡ (err e, s')) × Down s'

module _ (mem redis : AlertStateBackend) (laws : StoreLaws (to_store mem))
    (gives : GivesSnapshots mem laws) (fails : Fails redis) where
  abbrev pub Ready : Fallback mem redis → Type 0
  Ready f = fails.Down f.redis_st × laws.Ready f.memory

  abbrev pub view : Fallback mem redis → AlertType → AlertState
  view f = laws.view f.memory

  -- The first write of a resync fails, and the in-memory store is as before.
  resync_all_fails :
      (f : Fallback mem redis)
      → Ready f
      → (e : Error) × (s' : redis.St) × (resync_all mem redis f
          ≡ (err e, record f { redis_st = s' }))
        × fails.Down s'
  unfolding resync_all
  resync_all_fails f (down, ready) =
      let got = gives.get_state_law alert_type_high_mem f.memory refl ready in
      let (e, s', failed, down') =
        fails.set_state_fails alert_type_high_mem (laws.view f.memory alert_type_high_mem)
          f.redis_st down in
      (wrap "не удалось установить состояние в redis" e, s', ground arith, down')

  -- While every call of Redis fails, noticed or not, and the in-memory store serves calls by its
  -- contract and gives snapshots, `IncrementCount` of the fallback store for a valid type with
  -- room in its counter returns the count of the in-memory store and changes that store's states
  -- by exactly this measurement; the outage goes on and the store stays ready.
  pub increment_count_outage :
      (t : AlertType) (c : AlertCondition) (f : Fallback mem redis)
      → valid_alert_type t ≡ true
      → Ready f
      → HasRoom (view f t)
      → (f' : Fallback mem redis) × (increment_count mem redis t c f
          ≡ (ok (bump c (view f t)).count, f'))
        × Ready f'
        × ((u : AlertType)
            → valid_alert_type u ≡ true
            → view f' u ≡ with_state t (bump c (view f t)) (view f) u)
  unfolding increment_count try_recovery
  increment_count_outage t c f v (down, ready) room =
      let (m', got, r', val) = laws.increment_law t c f.memory v ready room in
      elim (Bool-cases f.redis_failed) [
        | inl failed ↦
            let (e, s', resync, down') = resync_all_fails f (down, ready) in
            (record f { memory = m'; redis_st = s' }, ground arith, (down', r'), val)
        | inr healthy ↦
            let (e, s', inc, down') = fails.increment_fails t c f.redis_st down in
            (
              record f { memory = m'; redis_st = s'; redis_failed = true },
              ground arith,
              (down', r'),
              val,
            )
      ]

  pub is_active_outage :
      (t : AlertType) (f : Fallback mem redis)
      → valid_alert_type t ≡ true
      → Ready f
      → (f' : Fallback mem redis) × (is_active mem redis t f ≡ (ok (view f t).active, f'))
        × Ready f'
        × ((u : AlertType) → view f' u ≡ view f u)
  unfolding is_active
  is_active_outage t f v (down, ready) =
      let (e, s', failed, down') = fails.is_active_fails t f.redis_st down in
      let (m', got, r', val) = laws.is_active_law t f.memory v ready in
      (record f { memory = m'; redis_st = s' }, ground arith, (down', r'), val)

  pub set_active_outage :
      (t : AlertType) (b : Bool) (f : Fallback mem redis)
      → valid_alert_type t ≡ true
      → Ready f
      → (f' : Fallback mem redis) × (set_active mem redis t b f ≡ (ok tt, f'))
        × Ready f'
        × ((u : AlertType)
            → valid_alert_type u ≡ true
            → view f' u ≡ with_state t (record (view f t) { active = b }) (view f) u)
  unfolding set_active
  set_active_outage t b f v (down, ready) =
      let (m', got, r', val) = laws.set_active_law t b f.memory v ready in
      elim (Bool-cases f.redis_failed) [
        | inl failed ↦
            let (e, s', resync, down') = resync_all_fails f (down, ready) in
            (record f { memory = m'; redis_st = s' }, ground arith, (down', r'), val)
        | inr healthy ↦
            let (e, s', set, down') = fails.set_active_fails t b f.redis_st down in
            (
              record f { memory = m'; redis_st = s'; redis_failed = true },
              ground arith,
              (down', r'),
              val,
            )
      ]

-- The contract of the fallback store in an outage, whether or not it was noticed before.
abbrev pub outage_laws :
    (mem redis : AlertStateBackend) (laws : StoreLaws (to_store mem))
    → GivesSnapshots mem laws
    → Fails redis
    → StoreLaws (fallback_store mem redis)
outage_laws mem redis laws gives fails = record {
  view = view mem redis laws gives fails;
  Ready = Ready mem redis laws gives fails;
  increment_law = increment_count_outage mem redis laws gives fails;
  is_active_law = is_active_outage mem redis laws gives fails;
  set_active_law = set_active_outage mem redis laws gives fails;
}
