-- ===== src/Alerts/Redis.antt =====
-- internal/redis/alert-state-store.go and set_state.lua: the states of the alerts as three keys
-- for each type. The client is the parameter `r`.
pub mod Keys
pub mod View
pub mod Increment
pub mod Commands
pub mod Unreachable
pub mod Contract
pub mod Lifetime
use server_watch.Base.{
  ℕ, Bool, true, false, List, [], ◌∷◌, String, str_eq, Result, ok, err, Error, message, sentinel,
  redis_nil, errors_is, not, Action, pure, raise, wrapping, ◌>>=◌, ◌>>◌, if◌then◌else◌, ◌/◌,
}
use Prim.Native.String.{◌++◌}
use server_watch.Base.Int.{ℤ, pos}
use server_watch.Model.{
  Time, second, AlertType, AlertCondition, AlertState, zero_state, alert_type_high_cpu,
  alert_type_high_mem,
}
use server_watch.RedisClient.{RedisClient, ScriptCall, set_ex, set_plain}
use server_watch.Alerts.Store.{AlertStateBackend}

pub record RedisAlertStateStore : Type 0 where
  pub ttl : Time
  pub prefix : String

abbrev pub alert_key : RedisAlertStateStore → AlertType → String → Result String
alert_key r t suffix =
    if str_eq t alert_type_high_cpu
    then ok (r.prefix ++ "cpu:" ++ suffix)
    else if str_eq t alert_type_high_mem
    then ok (r.prefix ++ "mem:" ++ suffix)
    else err (message "некорректный тип алерта")

abbrev pub lift : {S A : Type 0} → Result A → Action S A
lift r s = (r, s)

-- set_state.lua
abbrev pub set_state_script :
    String → String → String → String → String → String → ℤ → List ScriptCall
set_state_script key_1 key_2 key_3 arg_1 arg_2 arg_3 arg_4 =
    set_ex key_1 arg_1 arg_4 ∷ set_ex key_2 arg_2 arg_4 ∷ set_plain key_3 arg_3 ∷ []

-- `if active { value = 1 }`
abbrev pub flag : Bool → ℤ
flag active = if active then pos 1 else pos 0

module _ (client : RedisClient) (r : RedisAlertStateStore) where
  -- The value of a missing key is the empty string; any other error is reported.
  abbrev pub or_empty : String → Action client.St String → Action client.St String
  or_empty m act s =
      let (res, s') = act s in
      elim res [
        | ok v ↦ (ok v, s')
        | err e ↦ if not (errors_is e redis_nil) then (err (Error.wrap m e), s') else (ok "", s')
      ]

  abbrev pub same_condition : String → String → Action client.St ℤ
  same_condition key_cond key_count = do
    res ← wrapping "не удалось инкрементировать счетчик алерта" (client.incr key_count)
    wrapping "не удалось установить TTL у счетчика алерта" (client.expire key_count r.ttl)
    wrapping "не удалось установить TTL у состояния счетчика" (client.expire key_cond r.ttl)
    pure res

  abbrev pub other_condition : String → String → AlertCondition → Action client.St ℤ
  other_condition key_cond key_count condition = do
    wrapping "не удалось установить новое состояние" (client.set key_cond condition r.ttl)
    wrapping "не удалось установить значение счетчика алерта"
        (client.set key_count (client.format_int (pos 1)) r.ttl)
    pure (pos 1)

  -- The body of `IncrementCount` once the keys are known.
  unfoldable pub increment_keys : String → String → AlertCondition → Action client.St ℤ
  increment_keys key_cond key_count condition = do
    cond ← or_empty "не удалось получить состояние" (client.get key_cond)
    if str_eq cond condition
        then same_condition key_cond key_count
        else other_condition key_cond key_count condition

  unfoldable pub increment_count : AlertType → AlertCondition → Action client.St ℤ
  increment_count t condition = do
    key_cond ← lift (alert_key r t "condition")
    key_count ← lift (alert_key r t "count")
    increment_keys key_cond key_count condition

  abbrev pub active_reply : Result String → Result Bool
  active_reply (ok res) = if str_eq res "1" then ok true else ok false
  active_reply (err e) =
      if errors_is e redis_nil
      then ok false
      else err (Error.wrap "не удалось получить информацию об активности алерта" e)

  unfoldable pub is_active : AlertType → Action client.St Bool
  is_active t = do
    key ← lift (alert_key r t "active")
    λ s. let (res, s') = client.get key s in (active_reply res, s')

  unfoldable pub set_active : AlertType → Bool → Action client.St (Unit {0})
  set_active t active = do
    key ← lift (alert_key r t "active")
    wrapping "не удалось поменять статус алерта"
        (client.set key (client.format_int (flag active)) 0)

  unfoldable pub set_state : AlertType → AlertState → Action client.St (Unit {0})
  set_state t state = do
    key_cond ← lift (alert_key r t "condition")
    key_count ← lift (alert_key r t "count")
    key_active ← lift (alert_key r t "active")
    wrapping "не удалось установить состояние алерта" (
        client.eval (
          set_state_script key_cond key_count key_active state.condition
            (client.format_int state.count) (client.format_int (flag state.active))
            (pos (r.ttl / second))))

  unfoldable pub get_state : AlertType → Action client.St AlertState
  get_state t = pure zero_state

  abbrev pub redis_backend : AlertStateBackend
  redis_backend = record {
    St = client.St;
    increment_count = increment_count;
    is_active = is_active;
    set_active = set_active;
    get_state = get_state;
    set_state = set_state;
  }
