-- ===== src/Alerts/Redis/Increment.antt =====
-- What `IncrementCount` of the Redis store does to the keys while Redis is up.
use server_watch.Base.{
  ℕ, suc, ◌<◌, ◌≡◌, Option, some, true, false, String, str_eq, Bool-cases, inl, inr, arith,
  if◌then◌else◌, ok, ap, subst, ◌∙◌,
}
use server_watch.Base.Int.{pos, max_int64, pos_part, pos-pos_part}
use server_watch.Model.{
  AlertType, AlertCondition, AlertState, valid_alert_type, valid_alert_type-cases,
}
use server_watch.RedisClient.{RedisClient, RedisLaws, put, number}
use server_watch.Alerts.Store.{bump, HasRoom}
use server_watch.Alerts.Redis.{RedisAlertStateStore, increment_keys, increment_count}
use server_watch.Alerts.Redis.View.{
  text_of, cond_key, count_key, state_of, IsNumeric, Sets, put-count, put-condition,
}

bump_same :
    (c : AlertCondition) (n : ℕ) (st : AlertState)
    → st.count ≡ pos n
    → str_eq st.condition c ≡ true
    → record st { count = pos (suc n) } ≡ bump c st
bump_same c n st e h = ground arith

bump_other :
    (c : AlertCondition) (st : AlertState)
    → str_eq st.condition c ≡ false
    → record st { count = pos 1; condition = c } ≡ bump c st
bump_other c st h = ground arith

module _ (client : RedisClient) (r : RedisAlertStateStore) where
  pub increment_count_keys :
      (t : AlertType) (c : AlertCondition) (s : client.St)
      → valid_alert_type t ≡ true
      → increment_count client r t c s
        ≡ increment_keys client r (cond_key r.prefix t) (count_key r.prefix t) c s
  unfolding increment_count
  increment_count_keys t c s v = elim (valid_alert_type-cases t v) [ inl e ↦ rw e | inr e ↦ rw e ]

module _ (client : RedisClient) (laws : RedisLaws client) (r : RedisAlertStateStore) where
  open laws use {value, Up, get_law, set_law, incr_law, expire_law}

  abbrev written :
      AlertCondition → String → String → (String → Option String) → ℕ → String → Option String
  written c kc kn m n =
      if str_eq (text_of (m kc)) c
      then put kn (client.format_int (pos (suc n))) m
      else put kn (client.format_int (pos 1)) (put kc c m)

  -- `INCR` and two new lifetimes, or two `SET`s.
  increment_keys_result :
      (kc kn : String) (c : AlertCondition) (n : ℕ) (s : client.St)
      → 0 < r.ttl
      → Up s
      → number client.parse_int (value s kn) ≡ some (pos n)
      → n < max_int64
      → (s' : client.St) × (increment_keys client r kc kn c s
          ≡ (ok (if str_eq (text_of (value s kc)) c then pos (suc n) else pos 1), s'))
        × Up s'
        × (value s' ≡ written c kc kn (value s) n)
  unfolding increment_keys
  increment_keys_result kc kn c n s lives up num lt =
      let (s1, e1, u1, v1) = get_law kc s up in
      elim (Bool-cases (str_eq (text_of (value s kc)) c)) [
        | inl same ↦
            let (s2, e2, u2, v2) = incr_law kn n s1 u1 (rw v1 num) lt in
            let (s3, e3, u3, v3) = expire_law kn r.ttl s2 lives u2 in
            let (s4, e4, u4, v4) = expire_law kc r.ttl s3 lives u3 in
            (s4, ground arith, u4, rw (same, v4, v3, v2, v1))
        | inr other ↦
            let (s2, e2, u2, v2) = set_law kc c r.ttl s1 u1 in
            let (s3, e3, u3, v3) = set_law kn (client.format_int (pos 1)) r.ttl s2 u2 in
            (s3, ground arith, u3, rw (other, v3, v2, v1))
      ]

  abbrev pub view : client.St → AlertType → AlertState
  view s = state_of client.parse_int r.prefix (value s)

  -- Redis answers, and both counters are readable.
  abbrev pub Ready : client.St → Type 0
  Ready s =
      Up s
      × ((u : AlertType)
          → valid_alert_type u ≡ true
          → IsNumeric client.parse_int r.prefix (value s) u)

  parse_one : client.parse_int (client.format_int (pos 1)) ≡ some (pos 1)
  parse_one = laws.parse_format 1

  written-Sets :
      (c : AlertCondition) (n : ℕ) (m : String → Option String) (t u : AlertType)
      → (state_of client.parse_int r.prefix m t).count ≡ pos n
      → valid_alert_type t ≡ true
      → valid_alert_type u ≡ true
      → Sets client.parse_int r.prefix m
          (written c (cond_key r.prefix t) (count_key r.prefix t) m n)
          (bump c (state_of client.parse_int r.prefix m t))
          t
          u
  written-Sets c n m t u whole v w =
      let st : AlertState = state_of client.parse_int r.prefix m t in
      let m' = written c (cond_key r.prefix t) (count_key r.prefix t) m n in
      elim (Bool-cases (str_eq st.condition c)) [
        | inl same ↦
            subst (λ z. Sets client.parse_int r.prefix m m' z t u) (bump_same c n st whole same)
              (rw same (
                put-count client.parse_int r.prefix m _ (suc n) (laws.parse_format (suc n)) t u v
                  w))
        | inr other ↦
            subst (λ z. Sets client.parse_int r.prefix m m' z t u) (bump_other c st other)
              (rw other (put-condition client.parse_int r.prefix m _ c 1 parse_one t u v w))
      ]

  result-bump :
      (c : AlertCondition) (n : ℕ) (st : AlertState)
      → st.count ≡ pos n
      → (if str_eq st.condition c then pos (suc n) else pos 1) ≡ (bump c st).count
  result-bump c n st whole = ground arith

  -- One measurement, on the keys: the result, and the new states of both types.
  pub increment_count_result :
      (t : AlertType) (c : AlertCondition) (s : client.St)
      → 0 < r.ttl
      → valid_alert_type t ≡ true
      → Ready s
      → HasRoom (view s t)
      → (s' : client.St) × (increment_count client r t c s ≡ (ok (bump c (view s t)).count, s'))
        × Up s'
        × ((u : AlertType)
            → valid_alert_type u ≡ true
            → Sets client.parse_int r.prefix (value s) (value s') (bump c (view s t)) t u)
  increment_count_result t c s lives v (up, num) (np, lt) =
      let n : ℕ = pos_part (view s t).count in
      let whole = pos-pos_part (view s t).count np in
      let (s', e, up', val) =
        increment_keys_result (cond_key r.prefix t) (count_key r.prefix t) c n s lives up
          (num t v ∙ ap some whole) lt in
      (
        s',
        increment_count_keys client r t c s v
            ∙ e
            ∙ ap (λ z. (ok z, s')) (result-bump c n (view s t) whole),
        up',
        λ u w. rw val (written-Sets c n (value s) t u whole v w),
      )
