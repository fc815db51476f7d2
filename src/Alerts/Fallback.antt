-- ===== src/Alerts/Fallback.antt =====
-- internal/system/fallback-alert-state-store.go over two backends, `mem` and `redis`.
pub mod Healthy
pub mod Outage
pub mod Recovery
use server_watch.Base.{
  Bool, true, false, not, String, Option, none, some, List, [], ◌∷◌, Error, message, wrap_with,
  Result, ok, err, Action, pure, wrapping, ◌>>=◌, ◌>>◌, if◌then◌else◌,
}
use server_watch.Base.Int.{ℤ}
use server_watch.Model.{
  AlertType, AlertCondition, AlertState, alert_type_high_mem, alert_type_high_cpu,
}
use server_watch.Alerts.Store.{AlertStateBackend, AlertStateStore}

pub record FallbackAlertStateStore (mem redis : AlertStateBackend) : Type 0 where
  pub memory : mem.St
  pub redis_st : redis.St
  pub redis_failed : Bool

-- `%v` of a nil error prints `<nil>`.
abbrev pub shown : Option Error → Error
shown none = message "<nil>"
shown (some e) = e

-- The types of `resyncAll`, in its order.
abbrev pub resynced : List AlertType
resynced = alert_type_high_mem ∷ alert_type_high_cpu ∷ []

module _ (mem redis : AlertStateBackend) where
  abbrev pub Fallback : Type 0
  Fallback = FallbackAlertStateStore mem redis

  unfoldable pub new_fallback_alert_state_store : mem.St → redis.St → Fallback
  new_fallback_alert_state_store m r = record { memory = m; redis_st = r; redis_failed = false }

  abbrev pub on_memory : {A : Type 0} → Action mem.St A → Action Fallback A
  on_memory act f = let (res, m) = act f.memory in (res, record f { memory = m })

  abbrev pub on_redis : {A : Type 0} → Action redis.St A → Action Fallback A
  on_redis act f = let (res, r) = act f.redis_st in (res, record f { redis_st = r })

  unfoldable pub resync_types : List AlertType → Action Fallback (Unit {0})
  resync_types [] = pure tt
  resync_types (t ∷ ts) = do
    state ← wrapping "не удалось получить состояние из in-memory" (on_memory (mem.get_state t))
    wrapping "не удалось установить состояние в redis" (on_redis (redis.set_state t state))
    resync_types ts

  unfoldable pub resync_all : Action Fallback (Unit {0})
  unfolding resync_types
  resync_all = resync_types resynced

  -- `if f.redisFailed { … }`: the error of a failed resync, and the state after it.
  unfoldable pub try_recovery : Fallback → Option Error × Fallback
  try_recovery f =
      if f.redis_failed
      then (let (res, f') = resync_all f in
          elim res [ ok _ ↦ (none, record f' { redis_failed = false }) | err e ↦ (some e, f') ])
      else (none, f)

  -- The fallback to the in-memory store, with the two errors of its failure.
  abbrev pub use_memory : {A : Type 0} → String → Error → Action mem.St A → Action Fallback A
  use_memory text redis_err act f =
      let (res, m) = act f.memory in
      elim res [
        | ok v ↦ (ok v, record f { memory = m })
        | err e ↦ (err (wrap_with text redis_err e), record f { memory = m })
      ]

  abbrev pub increment_after : AlertType → AlertCondition → Option Error → Action Fallback ℤ
  increment_after t c redis_err f =
      if not f.redis_failed
      then (let (res, r) = redis.increment_count t c f.redis_st in
          elim res [
            | ok v ↦ (ok v, record f { redis_st = r })
            | err e ↦
                use_memory "ошибка redis; ошибка in-memory" e (mem.increment_count t c)
                  (record f { redis_st = r; redis_failed = true })
          ])
      else use_memory "ошибка redis; ошибка in-memory" (shown redis_err) (mem.increment_count t c) f

  unfoldable pub increment_count : AlertType → AlertCondition → Action Fallback ℤ
  increment_count t c f = let (redis_err, f') = try_recovery f in increment_after t c redis_err f'

  unfoldable pub is_active : AlertType → Action Fallback Bool
  is_active t f =
      let (res, r) = redis.is_active t f.redis_st in
      elim res [
        | ok active ↦ (ok active, record f { redis_st = r })
        | err e ↦
            use_memory "ошибка redis; ошибка in-memory" e (mem.is_active t)
              (record f { redis_st = r })
      ]

  abbrev pub set_active_redis : AlertType → Bool → Action Fallback (Unit {0})
  set_active_redis t active f =
      let (res, r) = redis.set_active t active f.redis_st in
      elim res [
        | ok _ ↦ (ok tt, record f { redis_st = r })
        | err e ↦
            use_memory "ошибка redis; ошибка in-memory" e (mem.set_active t active)
              (record f { redis_st = r; redis_failed = true })
      ]

  unfoldable pub set_active : AlertType → Bool → Action Fallback (Unit {0})
  set_active t active f =
      if f.redis_failed
      then (let (res, f') = resync_all f in
          elim res [
            | ok _ ↦ set_active_redis t active (record f' { redis_failed = false })
            | err e ↦
                use_memory "ошибка синхронизации redis; ошибка in-memory" e
                  (mem.set_active t active) f'
          ])
      else set_active_redis t active f

  abbrev pub fallback_store : AlertStateStore
  fallback_store = record {
    St = Fallback;
    increment_count = increment_count;
    is_active = is_active;
    set_active = set_active;
  }
