-- ===== src/Alerts/Store.antt =====
-- The interfaces `AlertStateStore`, `AlertStateSnapshotStore` and `AlertStateBackend` of
-- internal/system/redis.go, and the contract that a client of `AlertStateStore` relies on: how an
-- alert state changes, and that a store does exactly this to its view of the states.
pub mod Agreement
use server_watch.Base.{◌<◌, ◌≡◌, Bool, true, str_eq, Action, ok, if◌then◌else◌}
use server_watch.Base.Int.{ℤ, pos, inc, max_int64, pos_part, neg_part}
use server_watch.Model.{AlertType, AlertCondition, AlertState, valid_alert_type}

pub record AlertStateStore : Type 1 where
  pub St : Type 0
  pub increment_count : AlertType → AlertCondition → Action St ℤ
  pub is_active : AlertType → Action St Bool
  pub set_active : AlertType → Bool → Action St (Unit {0})

pub record AlertStateBackend : Type 1 where
  pub St : Type 0
  pub increment_count : AlertType → AlertCondition → Action St ℤ
  pub is_active : AlertType → Action St Bool
  pub set_active : AlertType → Bool → Action St (Unit {0})
  pub get_state : AlertType → Action St AlertState
  pub set_state : AlertType → AlertState → Action St (Unit {0})

abbrev pub to_store : AlertStateBackend → AlertStateStore
to_store b = record {
  St = b.St;
  increment_count = b.increment_count;
  is_active = b.is_active;
  set_active = b.set_active;
}

-- A measurement under condition `c`: the run of equal conditions grows, or a new one begins.
abbrev pub bump : AlertCondition → AlertState → AlertState
bump c s =
    if str_eq s.condition c
    then record s { count = inc s.count }
    else record s { condition = c; count = pos 1 }

-- The counter can grow once more without leaving `int64`.
abbrev pub HasRoom : AlertState → Type 0
HasRoom s = (neg_part s.count ≡ 0) × (pos_part s.count < max_int64)

abbrev pub with_state : AlertType → AlertState → (AlertType → AlertState) → AlertType → AlertState
with_state t new m u = if str_eq u t then new else m u

-- The contract. `Ready` says that the store serves the calls to come.
pub record StoreLaws (a : AlertStateStore) : Type 1 where
  pub view : a.St → AlertType → AlertState
  pub Ready : a.St → Type 0
  pub increment_law :
      (t : AlertType) (c : AlertCondition) (s : a.St)
      → valid_alert_type t ≡ true
      → Ready s
      → HasRoom (view s t)
      → (s' : a.St) × (a.increment_count t c s ≡ (ok (bump c (view s t)).count, s'))
        × Ready s'
        × ((u : AlertType)
            → valid_alert_type u ≡ true
            → view s' u ≡ with_state t (bump c (view s t)) (view s) u)
  pub is_active_law :
      (t : AlertType) (s : a.St)
      → valid_alert_type t ≡ true
      → Ready s
      → (s' : a.St) × (a.is_active t s ≡ (ok (view s t).active, s'))
        × Ready s'
        × ((u : AlertType) → view s' u ≡ view s u)
  pub set_active_law :
      (t : AlertType) (b : Bool) (s : a.St)
      → valid_alert_type t ≡ true
      → Ready s
      → (s' : a.St) × (a.set_active t b s ≡ (ok tt, s'))
        × Ready s'
        × ((u : AlertType)
            → valid_alert_type u ≡ true
            → view s' u ≡ with_state t (record (view s t) { active = b }) (view s) u)

-- What a backend that takes snapshots does with them.
pub record TakesSnapshots (b : AlertStateBackend) (laws : StoreLaws (to_store b)) : Type 1 where
  pub set_state_law :
      (t : AlertType) (new : AlertState) (s : b.St)
      → valid_alert_type t ≡ true
      → laws.Ready s
      → neg_part new.count ≡ 0
      → (s' : b.St) × (b.set_state t new s ≡ (ok tt, s'))
        × laws.Ready s'
        × ((u : AlertType)
            → valid_alert_type u ≡ true
            → laws.view s' u ≡ with_state t new (laws.view s) u)

pub record GivesSnapshots (b : AlertStateBackend) (laws : StoreLaws (to_store b)) : Type 1 where
  pub get_state_law :
      (t : AlertType) (s : b.St)
      → valid_alert_type t ≡ true
      → laws.Ready s
      → b.get_state t s ≡ (ok (laws.view s t), s)
