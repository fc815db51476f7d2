-- ===== src/Alerts/Memory/Laws.antt =====
-- The contract of an alert state store, for the in-memory store.
use server_watch.Base.{◌≡◌, refl, Bool, true, none, some, ok, ap, str_eq_iff, arith}
use server_watch.Model.{AlertType, AlertCondition, AlertState, zero_state, valid_alert_type}
use server_watch.Alerts.Store.{to_store, bump, HasRoom, with_state, StoreLaws, GivesSnapshots}
use server_watch.Alerts.Memory.{
  InMemoryAlertStateStore, increment_count, is_active, set_active, get_state, memory_backend,
}

-- A state that was never stored reads as the zero state.
abbrev pub view : InMemoryAlertStateStore → AlertType → AlertState
view i t = elim (i.states t) [ none ↦ zero_state | some s ↦ s ]

module _ (t : AlertType) (i : InMemoryAlertStateStore) (v : valid_alert_type t ≡ true) where
  pub increment_count_result :
      (c : AlertCondition)
      → HasRoom (view i t)
      → (increment_count t c i).0 ≡ ok (bump c (view i t)).count
  unfolding increment_count
  increment_count_result c h = ground arith

  pub view-increment_count :
      (c : AlertCondition) (u : AlertType)
      → HasRoom (view i t)
      → view (increment_count t c i).1 u ≡ with_state t (bump c (view i t)) (view i) u
  unfolding increment_count
  view-increment_count c u h = ground (arith, str_eq_iff u t, str_eq_iff (view i t).condition c)

  -- For a valid type with room in its counter, `IncrementCount` of the in-memory store returns the
  -- new count and changes the state of that type alone: the run of its condition grows, or a new
  -- run begins at 1.
  increment_count_bumps :
      (c : AlertCondition)
      → HasRoom (view i t)
      → ((increment_count t c i).0 ≡ ok (bump c (view i t)).count)
        × ((u : AlertType)
            → view (increment_count t c i).1 u ≡ with_state t (bump c (view i t)) (view i) u)
  increment_count_bumps c h = (increment_count_result c h, λ u. view-increment_count c u h)

  pub is_active_result : is_active t i ≡ (ok (view i t).active, i)
  unfolding is_active
  is_active_result = ground arith

  pub set_active_result : (b : Bool) → (set_active t b i).0 ≡ ok tt
  unfolding set_active
  set_active_result b = ground arith

  pub view-set_active :
      (b : Bool) (u : AlertType)
      → view (set_active t b i).1 u ≡ with_state t (record (view i t) { active = b }) (view i) u
  unfolding set_active
  view-set_active b u = ground (arith, str_eq_iff u t)

  pub get_state_result : get_state t i ≡ (ok (view i t), i)
  unfolding get_state
  get_state_result = ground arith

-- The in-memory store is a store by the contract, and is always ready.
abbrev pub memory_laws : StoreLaws (to_store memory_backend)
memory_laws = record {
  view = view;
  Ready = λ i. Unit {0};
  increment_law = λ t c i v r h. (
    (increment_count t c i).1,
    ap (λ x. (x, (increment_count t c i).1)) (increment_count_result t i v c h),
    tt,
    λ u w. view-increment_count t i v c u h,
  );
  is_active_law = λ t i v r. (i, is_active_result t i v, tt, λ u. refl);
  set_active_law = λ t b i v r. (
    (set_active t b i).1,
    ap (λ x. (x, (set_active t b i).1)) (set_active_result t i v b),
    tt,
    λ u w. view-set_active t i v b u,
  );
}

-- It gives the states that it holds.
pub memory_GivesSnapshots : GivesSnapshots memory_backend memory_laws
memory_GivesSnapshots = record { get_state_law = λ t i v r. get_state_result t i v }
