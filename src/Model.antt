-- ===== src/Model.antt =====
-- The data of internal/system/model and internal/notifications/notification.go, and the Go
-- values that they are made of. `float64` is a parameter `F` with the operations that the program
-- uses; a `time.Time` is the number of nanoseconds since Go's zero time, so `IsZero` tests for 0;
-- `model.AlertType`, `model.AlertCondition` and `NotificationAction` are strings, as in the source.
use server_watch.Base.{
  ℕ, ◌≡◌, Bool, true, false, ◌||◌, ◌⊎◌, inl, inr, Option, String, str_eq, str_eq_iff, Bool-cases,
  arith,
}
use server_watch.Base.Int.{ℤ}

-- The operations of `float64`: `<`, `== 0`, conversion of a constant or an unsigned integer,
-- `*`, `/` and `int64(x)`.
pub record Floats (F : Type 0) : Type 0 where
  pub lt : F → F → Bool
  pub is_zero : F → Bool
  pub of_ℕ : ℕ → F
  pub mul : F → F → F
  pub div : F → F → F
  pub to_int64 : F → ℤ

abbrev pub Time : Type 0
Time = ℕ

abbrev pub second : ℕ
second = 1000000000

abbrev pub AlertType : Type 0
AlertType = String

abbrev pub alert_type_high_cpu : AlertType
alert_type_high_cpu = "HIGH_CPU"

abbrev pub alert_type_high_mem : AlertType
alert_type_high_mem = "HIGH_MEM"

abbrev pub AlertCondition : Type 0
AlertCondition = String

abbrev pub condition_normal : AlertCondition
condition_normal = "normal"

abbrev pub condition_high : AlertCondition
condition_high = "high"

abbrev pub NotificationAction : Type 0
NotificationAction = String

abbrev pub action_created : NotificationAction
action_created = "created"

abbrev pub action_resolved : NotificationAction
action_resolved = "resolved"

pub record Metrics (F : Type 0) : Type 0 where
  pub cpu_usage : F
  pub mem_usage : F
  pub mem_used_mb : F
  pub mem_total_mb : F
  pub disk_usage : F
  pub disk_used : F
  pub disk_total : F
  pub timestamp : Time

-- `id` is an `int64` that SQLite assigns.
pub record Alert (F : Type 0) : Type 0 where
  pub id : ℕ
  pub kind : AlertType
  pub timestamp : Time
  pub threshold : F
  pub resolved : Bool
  pub resolved_at : Option Time
  pub value : F

pub record AlertUpdate : Type 0 where
  pub cpu_count : ℤ
  pub cpu_condition : AlertCondition
  pub mem_count : ℤ
  pub mem_condition : AlertCondition

pub record AlertState : Type 0 where
  pub count : ℤ
  pub condition : AlertCondition
  pub active : Bool

pub record Notification (F : Type 0) : Type 0 where
  pub kind : AlertType
  pub action : NotificationAction
  pub value : F
  pub threshold : F
  pub timestamp : Time

-- `model.AlertState{}`
abbrev pub zero_state : AlertState
zero_state = record { count = ℤ.pos 0; condition = ""; active = false }

abbrev pub valid_alert_type : AlertType → Bool
valid_alert_type t = str_eq t alert_type_high_mem || str_eq t alert_type_high_cpu

pub valid_alert_type-cases :
    (t : AlertType)
    → valid_alert_type t ≡ true
    → (t ≡ alert_type_high_cpu) ⊎ (t ≡ alert_type_high_mem)
valid_alert_type-cases t v = elim (Bool-cases (str_eq t alert_type_high_cpu)) [
  | inl e ↦ inl ((str_eq_iff _ _).0 e)
  | inr e ↦ inr ((str_eq_iff _ _).0 (ground arith))
]
