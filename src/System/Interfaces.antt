-- ===== src/System/Interfaces.antt =====
-- The interfaces that the system layer is built on: `Repository` (internal/system/repository.go),
-- `MetricsCache` (internal/system/redis.go) and `Queue` (internal/notifications/queue.go), with the
-- contract of a repository, and what `NewSystem` is given.
use server_watch.Base.{
  ℕ, ◌≡◌, Bool, true, false, Option, none, some, List, str_eq, Action, ok, if◌then◌else◌,
}
use server_watch.Model.{Floats, Time, AlertType, Metrics, Alert, Notification, valid_alert_type}
use server_watch.Config.{ConfigEnv}
use server_watch.Alerts.Store.{AlertStateStore}

pub record Repository (F : Type 0) : Type 1 where
  pub St : Type 0
  pub save_metrics : Metrics F → Action St (Unit {0})
  pub save_alert : Alert F → Action St ℕ
  pub get_metrics : Time → Time → Action St (List (Metrics F))
  pub get_alerts : Bool → Action St (List (Alert F))
  pub resolve_alert : ℕ → Time → Action St (Unit {0})
  pub get_active_alert : AlertType → Action St (Option (Alert F))

pub record MetricsCache (F : Type 0) : Type 1 where
  pub St : Type 0
  pub set_metrics : Metrics F → Action St (Unit {0})
  pub get_metrics : Action St (Metrics F)

pub record Queue (F : Type 0) : Type 1 where
  pub St : Type 0
  pub push : Notification F → Action St (Unit {0})
  pub consume : Action St (Notification F)

-- `now n` is the n-th reading of the clock; `has_cache` is `s.cache != nil`.
pub record Deps (F : Type 0) : Type 1 where
  pub floats : Floats F
  pub env : ConfigEnv F
  pub repository : Repository F
  pub alert_state : AlertStateStore
  pub has_cache : Bool
  pub cache : MetricsCache F
  pub queue : Queue F
  pub now : ℕ → Time

abbrev pub with_active :
    {F : Type 0}
    → AlertType
    → Option (Alert F)
    → (AlertType → Option (Alert F))
    → AlertType
    → Option (Alert F)
with_active t new m u = if str_eq u t then new else m u

-- The contract of a repository, on the active alert of each type.
pub record RepositoryLaws {F : Type 0} (r : Repository F) : Type 1 where
  pub active : r.St → AlertType → Option (Alert F)
  pub Ready : r.St → Type 0
  pub save_metrics_law :
      (m : Metrics F) (s : r.St)
      → Ready s
      → (s' : r.St) × (r.save_metrics m s ≡ (ok tt, s'))
        × Ready s'
        × ((u : AlertType) → active s' u ≡ active s u)
  pub get_active_alert_law :
      (t : AlertType) (s : r.St)
      → valid_alert_type t ≡ true
      → Ready s
      → (s' : r.St) × (r.get_active_alert t s ≡ (ok (active s t), s'))
        × Ready s'
        × ((u : AlertType) → active s' u ≡ active s u)
  pub save_alert_law :
      (a : Alert F) (s : r.St)
      → valid_alert_type a.kind ≡ true
      → a.resolved ≡ false
      → active s a.kind ≡ none
      → Ready s
      → (id : ℕ) × (s' : r.St) × (r.save_alert a s ≡ (ok id, s'))
        × Ready s'
        × ((u : AlertType)
            → active s' u ≡ with_active a.kind (some (record a { id = id })) (active s) u)
  pub resolve_alert_law :
      (t : AlertType) (a : Alert F) (at : Time) (s : r.St)
      → valid_alert_type t ≡ true
      → active s t ≡ some a
      → Ready s
      → (s' : r.St) × (r.resolve_alert a.id at s ≡ (ok tt, s'))
        × Ready s'
        × ((u : AlertType) → active s' u ≡ with_active t none (active s) u)
