-- ===== src/Alerts/Memory.antt =====
-- internal/system/alert-state-store/alert-state-store.go: the states in a Go map. A map from
-- alert types is a function into `Option`; the mutex makes each method atomic.
pub mod Laws
use server_watch.Base.{
  Bool, true, false, not, Option, none, some, str_eq, Action, ok, err, message, if◌then◌else◌,
}
use server_watch.Base.Int.{ℤ, pos, inc64}
use server_watch.Model.{AlertType, AlertCondition, AlertState, zero_state, valid_alert_type}
use server_watch.Alerts.Store.{AlertStateBackend}

pub record InMemoryAlertStateStore : Type 0 where
  pub states : AlertType → Option AlertState

unfoldable pub new_in_memory_alert_state_store : InMemoryAlertStateStore
new_in_memory_alert_state_store = record { states = λ t. none }

-- `i.states[t] = s`
abbrev pub store : AlertType → AlertState → InMemoryAlertStateStore → InMemoryAlertStateStore
store t s i = record { states = λ u. if str_eq u t then some s else i.states u }

abbrev increment_existing :
    AlertType → AlertCondition → AlertState → InMemoryAlertStateStore → ℤ × InMemoryAlertStateStore
increment_existing t c s i =
    if not (str_eq s.condition c)
    then (pos 1, store t (record s { condition = c; count = pos 1 }) i)
    else (inc64 s.count, store t (record s { count = inc64 s.count }) i)

unfoldable pub increment_count : AlertType → AlertCondition → Action InMemoryAlertStateStore ℤ
increment_count t c i =
    if not (valid_alert_type t)
    then (err (message "некорректный тип алерта"), i)
    else elim (i.states t) [
      | none ↦ (ok (pos 1), store t (record { count = pos 1; condition = c; active = false }) i)
      | some s ↦ let (value, i') = increment_existing t c s i in (ok value, i')
    ]

unfoldable pub is_active : AlertType → Action InMemoryAlertStateStore Bool
is_active t i =
    if not (valid_alert_type t)
    then (err (message "некорректный тип алерта"), i)
    else elim (i.states t) [ none ↦ (ok false, i) | some s ↦ (ok s.active, i) ]

unfoldable pub set_active : AlertType → Bool → Action InMemoryAlertStateStore (Unit {0})
set_active t active i =
    if not (valid_alert_type t)
    then (err (message "некорректный тип алерта"), i)
    else elim (i.states t) [
      | none ↦ (ok tt, store t (record zero_state { active = active }) i)
      | some s ↦ (ok tt, store t (record s { active = active }) i)
    ]

unfoldable pub get_state : AlertType → Action InMemoryAlertStateStore AlertState
get_state t i =
    if not (valid_alert_type t)
    then (err (message "некорректный тип алерта"), i)
    else elim (i.states t) [ some s ↦ (ok s, i) | none ↦ (ok zero_state, i) ]

unfoldable pub set_state : AlertType → AlertState → Action InMemoryAlertStateStore (Unit {0})
set_state t s i = (ok tt, i)

abbrev pub memory_backend : AlertStateBackend
memory_backend = record {
  St = InMemoryAlertStateStore;
  increment_count = increment_count;
  is_active = is_active;
  set_active = set_active;
  get_state = get_state;
  set_state = set_state;
}
