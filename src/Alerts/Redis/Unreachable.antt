-- ===== src/Alerts/Redis/Unreachable.antt =====
-- The Redis store while Redis cannot be reached.
use server_watch.Base.{
  ◌≡◌, ◌⊎◌, ◌/◌, Bool, false, wrap, message, str_eq, Bool-cases, Action, String, Error, redis_nil,
  errors_is, ok, err, inl, inr, arith, List,
}
use Prim.Native.String.{◌++◌}
use server_watch.Base.Int.{pos}
use server_watch.Model.{
  second, alert_type_high_cpu, alert_type_high_mem, Time, AlertType, AlertCondition, AlertState,
}
use server_watch.RedisClient.{RedisClient, ScriptCall}
use server_watch.Alerts.Redis.{
  RedisAlertStateStore, alert_key, increment_keys, increment_count, is_active, set_active,
  set_state, set_state_script, flag, redis_backend,
}
use server_watch.Alerts.Fallback.Outage.{Fails}

-- Every command fails, and not with `redis.Nil`, and so it goes on.
pub record Unreachable (client : RedisClient) : Type 1 where
  pub Down : client.St → Type 0
  pub get_fails :
      (k : String) (s : client.St)
      → Down s
      → (e : Error) × (s' : client.St) × (client.get k s ≡ (err e, s'))
        × Down s'
        × (errors_is e redis_nil ≡ false)
  pub set_fails :
      (k v : String) (ttl : Time) (s : client.St)
      → Down s
      → (e : Error) × (s' : client.St) × (client.set k v ttl s ≡ (err e, s')) × Down s'
  pub eval_fails :
      (script : List ScriptCall) (s : client.St)
      → Down s
      → (e : Error) × (s' : client.St) × (client.eval script s ≡ (err e, s')) × Down s'

-- A type has all its keys or none.
key_cases :
    (r : RedisAlertStateStore) (t : AlertType)
    → ((suffix : String) → (k : String) × (alert_key r t suffix ≡ ok k))
      ⊎ ((e : Error) × ((suffix : String) → alert_key r t suffix ≡ err e))
key_cases r t = elim (Bool-cases (str_eq t alert_type_high_cpu)) [
  | inl cpu ↦ inl (λ suffix. (r.prefix ++ "cpu:" ++ suffix, rw cpu))
  | inr other ↦ elim (Bool-cases (str_eq t alert_type_high_mem)) [
    | inl mem ↦ inl (λ suffix. (r.prefix ++ "mem:" ++ suffix, rw (other, mem)))
    | inr none ↦ inr (message "некорректный тип алерта", λ suffix. rw (other, none))
  ]
]

module _ (client : RedisClient) (r : RedisAlertStateStore) (gone : Unreachable client) where
  open gone use {Down}

  -- The call fails, and Redis stays out of reach.
  abbrev pub FailsFrom : {A : Type 0} → client.St → Action client.St A → Type 0
  FailsFrom s act = (e : Error) × (s' : client.St) × (act s ≡ (err e, s')) × Down s'

  pub increment_count_unreachable :
      (t : AlertType) (c : AlertCondition) (s : client.St)
      → Down s
      → FailsFrom s (increment_count client r t c)
  unfolding increment_count increment_keys
  increment_count_unreachable t c s down = elim (key_cases r t) [
    | inr (e, bad) ↦ let e1 = bad "condition" in (e, s, ground arith, down)
    | inl keys ↦
        let (k, e1) = keys "condition" in
        let (k', e2) = keys "count" in
        let (e, s', failed, down', other) = gone.get_fails k s down in
        (wrap "не удалось получить состояние" e, s', ground arith, down')
  ]

  pub is_active_unreachable :
      (t : AlertType) (s : client.St) → Down s → FailsFrom s (is_active client r t)
  unfolding is_active
  is_active_unreachable t s down = elim (key_cases r t) [
    | inr (e, bad) ↦ let e1 = bad "active" in (e, s, ground arith, down)
    | inl keys ↦
        let (k, e1) = keys "active" in
        let (e, s', failed, down', other) = gone.get_fails k s down in
        (wrap "не удалось получить информацию об активности алерта" e, s', ground arith, down')
  ]

  pub set_active_unreachable :
      (t : AlertType) (a : Bool) (s : client.St) → Down s → FailsFrom s (set_active client r t a)
  unfolding set_active
  set_active_unreachable t a s down = elim (key_cases r t) [
    | inr (e, bad) ↦ let e1 = bad "active" in (e, s, ground arith, down)
    | inl keys ↦
        let (k, e1) = keys "active" in
        let (e, s', failed, down') = gone.set_fails k (client.format_int (flag a)) 0 s down in
        (wrap "не удалось поменять статус алерта" e, s', ground arith, down')
  ]

  pub set_state_unreachable :
      (t : AlertType) (new : AlertState) (s : client.St)
      → Down s
      → FailsFrom s (set_state client r t new)
  unfolding set_state
  set_state_unreachable t new s down = elim (key_cases r t) [
    | inr (e, bad) ↦ let e1 = bad "condition" in (e, s, ground arith, down)
    | inl keys ↦
        let (k1, e1) = keys "condition" in
        let (k2, e2) = keys "count" in
        let (k3, e3) = keys "active" in
        let script =
          set_state_script k1 k2 k3 new.condition (client.format_int new.count)
            (client.format_int (flag new.active)) (pos (r.ttl / second)) in
        let (e, s', failed, down') = gone.eval_fails script s down in
        (wrap "не удалось установить состояние алерта" e, s', ground arith, down')
  ]

  abbrev pub unreachable_Fails : Fails (redis_backend client r)
  unreachable_Fails = record {
    Down = Down;
    increment_fails = increment_count_unreachable;
    is_active_fails = is_active_unreachable;
    set_active_fails = set_active_unreachable;
    set_state_fails = set_state_unreachable;
  }
