-- ===== src/Alerts/Redis/Contract.antt =====
-- The contract of an alert state store, for the Redis store while Redis is up.
use server_watch.Base.{◌<◌, ◌≤◌, ℕ, ◌≡◌, Bool, true, ok, ap, sym, subst, ◌∙◌}
use server_watch.Base.Int.{pos, pos_part, neg_part, pos-pos_part}
use server_watch.Model.{second, AlertType, AlertCondition, AlertState, valid_alert_type}
use server_watch.RedisClient.{RedisClient, RedisLaws}
use server_watch.Alerts.Store.{bump, HasRoom, with_state, StoreLaws, TakesSnapshots, to_store}
use server_watch.Alerts.Redis.{
  RedisAlertStateStore, redis_backend, increment_count, is_active, set_active, set_state, flag,
}
use server_watch.Alerts.Redis.View.{put-active, put-state}
use server_watch.Alerts.Redis.Increment.{view, Ready, increment_count_result}
use server_watch.Alerts.Redis.Commands.{
  flag-active, is_active_result, set_active_result, set_state_result,
}

module _ (client : RedisClient) (laws : RedisLaws client) (r : RedisAlertStateStore) where
  open laws use {value}

  -- While Redis answers and no key expires, for a store with a positive lifetime and both counters
  -- readable, `IncrementCount` of the Redis store for a valid type with room in its counter
  -- returns the new count, and the three keys of every valid type then hold the states of the
  -- contract: this type's with the measurement, the other's as before; Redis still answers and the
  -- counters are readable.
  pub increment_count_writes :
      (t : AlertType) (c : AlertCondition) (s : client.St)
      → 0 < r.ttl
      → valid_alert_type t ≡ true
      → Ready client laws r s
      → HasRoom (view client laws r s t)
      → (s' : client.St) × (increment_count client r t c s
          ≡ (ok (bump c (view client laws r s t)).count, s'))
        × Ready client laws r s'
        × ((u : AlertType)
            → valid_alert_type u ≡ true
            → view client laws r s' u
              ≡ with_state t (bump c (view client laws r s t)) (view client laws r s) u)
  increment_count_writes t c s lives v ready room =
      let (s', e, up', sets) = increment_count_result client laws r t c s lives v ready room in
      (s', e, (up', λ u w. (sets u w).1 (ready.1 u w)), λ u w. (sets u w).0)

  pub is_active_reads :
      (t : AlertType) (s : client.St)
      → valid_alert_type t ≡ true
      → Ready client laws r s
      → (s' : client.St) × (is_active client r t s ≡ (ok (view client laws r s t).active, s'))
        × Ready client laws r s'
        × ((u : AlertType) → view client laws r s' u ≡ view client laws r s u)
  is_active_reads t s v ready =
      let (s', e, up', val) = is_active_result client laws r t s v ready.0 in
      (s', e, (up', λ u w. rw val (ready.1 u w)), λ u. rw val)

  pub set_active_writes :
      (t : AlertType) (b : Bool) (s : client.St)
      → valid_alert_type t ≡ true
      → Ready client laws r s
      → (s' : client.St) × (set_active client r t b s ≡ (ok tt, s'))
        × Ready client laws r s'
        × ((u : AlertType)
            → valid_alert_type u ≡ true
            → view client laws r s' u
              ≡ with_state t
                  (record (view client laws r s t) { active = b })
                  (view client laws r s)
                  u)
  set_active_writes t b s v ready =
      let (s', e, up', val) = set_active_result client laws r t b s v ready.0 in
      let sets =
        put-active client.parse_int r.prefix (value s) (client.format_int (flag b)) b
          (flag-active client laws r b) t in
      (s', e, (up', λ u w. rw val ((sets u v w).1 (ready.1 u w))), λ u w. rw val (sets u v w).0)

  -- While Redis answers and no key expires, for a store with a lifetime of a second or more and
  -- both counters readable, `SetState` of the Redis store for a valid type and a state whose count
  -- is not negative succeeds, and the three keys of every valid type then hold: this type's the
  -- new state, the other's what they held; Redis still answers and the counters are readable.
  pub set_state_writes :
      (t : AlertType) (new : AlertState) (s : client.St)
      → second ≤ r.ttl
      → valid_alert_type t ≡ true
      → Ready client laws r s
      → neg_part new.count ≡ 0
      → (s' : client.St) × (set_state client r t new s ≡ (ok tt, s'))
        × Ready client laws r s'
        × ((u : AlertType)
            → valid_alert_type u ≡ true
            → view client laws r s' u ≡ with_state t new (view client laws r s) u)
  set_state_writes t new s lives v ready np =
      let (s', e, up', val) = set_state_result client laws r t new s lives v ready.0 in
      let n : ℕ = pos_part new.count in
      let whole = pos-pos_part new.count np in
      let sets =
        put-state client.parse_int r.prefix (value s) new.condition (client.format_int new.count)
          (client.format_int (flag new.active)) n new.active
          (ap (λ z. client.parse_int (client.format_int z)) whole ∙ laws.parse_format n)
          (flag-active client laws r new.active) t in
      let same : record new { count = pos n } ≡ new = λ i. record new { count = sym whole i } in
      (
        s',
        e,
        (up', λ u w. rw val ((sets u v w).1 (ready.1 u w))),
        λ u w.
            subst (λ z. view client laws r s' u ≡ with_state t z (view client laws r s) u) same
              (rw val (sets u v w).0),
      )

-- The Redis store is a store by the contract, ready while the server answers and its counters are
-- readable.
abbrev pub redis_laws :
    (client : RedisClient) (laws : RedisLaws client) (r : RedisAlertStateStore)
    → 0 < r.ttl
    → StoreLaws (to_store (redis_backend client r))
redis_laws client laws r lives = record {
  view = view client laws r;
  Ready = Ready client laws r;
  increment_law =
      λ t c s v ready room. increment_count_writes client laws r t c s lives v ready room;
  is_active_law = λ t s v ready. is_active_reads client laws r t s v ready;
  set_active_law = λ t b s v ready. set_active_writes client laws r t b s v ready;
}

pub redis_TakesSnapshots :
    (client : RedisClient) (laws : RedisLaws client) (r : RedisAlertStateStore)
    → (lives : 0 < r.ttl) → second ≤ r.ttl
    → TakesSnapshots (redis_backend client r) (redis_laws client laws r lives)
redis_TakesSnapshots client laws r lives whole = record {
  set_state_law = λ t new s v ready np. set_state_writes client laws r t new s whole v ready np;
}
