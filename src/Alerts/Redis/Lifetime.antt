-- ===== src/Alerts/Redis/Lifetime.antt =====
-- `IncrementCount` of the Redis store and the lifetime of its keys.
pub mod Writes
use server_watch.Base.{
  ℕ, zero, suc, ◌+◌, ◌<◌, ◌≤◌, ◌≡◌, ◌≢◌, refl, ltb, Option, none, some, true, false, String, str_eq,
  str_eq-refl, str_eq_iff, Bool-cases, inl, inr, arith, if◌then◌else◌, ok, ap, subst, ◌∙◌,
}
use server_watch.Base.Int.{pos, max_int64}
use server_watch.Alerts.Redis.Keys.{str_eq-key}
use server_watch.Model.{Time, AlertType, AlertCondition, valid_alert_type, valid_alert_type-cases}
use server_watch.RedisClient.{RedisClient, number}
use server_watch.RedisClient.Expiry.{ExpiryLaws, Passes, lasting, renewed, extended}
use server_watch.Alerts.Redis.{RedisAlertStateStore, increment_keys, increment_count}
use server_watch.Alerts.Redis.View.{text_of, cond_key, count_key}
use server_watch.Alerts.Redis.Increment.{increment_count_keys}
use Writes.{IsWritten, increment_keys-IsWritten}

module _ (client : RedisClient) (laws : ExpiryLaws client) (r : RedisAlertStateStore)
    (lives : 0 < r.ttl) where
  open laws use {now, holds, Up, get_law, set_law, incr_law, expire_law}

  -- What the keys hold when some time has passed.
  lasting_later :
      (v : String) (ttl from span at : Time)
      → 0 < ttl
      → at ≡ from + span
      → lasting v ttl from at ≡ (if ltb span ttl then some v else none)
  lasting_later v zero from span at pos_ttl e = absurd (omega arith)
  lasting_later v (suc ttl) from span at pos_ttl e = ground (arith, e)

  keys_apart :
      (t : AlertType)
      → valid_alert_type t ≡ true
      → (str_eq (cond_key r.prefix t) (count_key r.prefix t) ≡ false)
        × (str_eq (count_key r.prefix t) (cond_key r.prefix t) ≡ false)
  keys_apart t v = elim (valid_alert_type-cases t v) [
    | inl e ↦ rw e (simp str_eq-key, simp str_eq-key)
    | inr e ↦ rw e (simp str_eq-key, simp str_eq-key)
  ]

  -- The next call, on keys that were written and are `span` older.
  next_increment :
      (kc kn : String) (c : AlertCondition) (m : ℕ) (span : Time) (s s' s'' : client.St)
      → IsWritten client laws r lives kc kn c m s s'
      → Passes laws span s' s''
      → str_eq kc kn ≡ false
      → str_eq kn kc ≡ false
      → str_eq c "" ≡ false
      → m < max_int64
      → (increment_keys client r kc kn c s'').0 ≡ ok (pos (if ltb span r.ttl then suc m else 1))
  next_increment kc kn c m span s s' s'' put gone apart apart' full lt =
      let at : now s'' ≡ now s + span = gone.later ∙ ap (λ t. t + span) put.clock in
      let cond =
        gone.kept kc (now s'') (omega arith)
        ∙ put.condition (now s'')
        ∙ lasting_later c r.ttl (now s) span (now s'') lives at in
      let count =
        gone.kept kn (now s'') (omega arith)
        ∙ put.count (now s'')
        ∙ lasting_later (client.format_int (pos m)) r.ttl (now s) span (now s'') lives at in
      elim (Bool-cases (ltb span r.ttl)) [
        | inl live ↦
            let num : number client.parse_int (holds s'' kn (now s'')) ≡ some (pos m) =
              rw (count, live) (laws.parse_format m) in
            let (_, e, _) =
              increment_keys-IsWritten client laws r lives kc kn c m s'' gone.up apart apart' full
                num lt in
            rw live (ap (λ o. o.0) e ∙ rw (cond, live, str_eq-refl c) refl)
        | inr over ↦
            let num : number client.parse_int (holds s'' kn (now s'')) ≡ some (pos 0) =
              rw (count, over) refl in
            let (_, e, _) =
              increment_keys-IsWritten client laws r lives kc kn c 0 s'' gone.up apart apart' full
                num (omega arith) in
            rw over (ap (λ o. o.0) e ∙ rw (cond, over) (ground arith))
      ]

  -- What the keys of a type hold now.
  abbrev pub condition_now : AlertType → client.St → String
  condition_now t s = text_of (holds s (cond_key r.prefix t) (now s))

  abbrev pub CountsNow : AlertType → ℕ → client.St → Type 0
  CountsNow t n s = number client.parse_int (holds s (count_key r.prefix t) (now s)) ≡ some (pos n)

  -- With the lifetimes of keys as Redis documents them and a store whose lifetime is positive:
  -- while Redis answers, for a valid type, a condition that is not empty and a readable counter
  -- with room, `IncrementCount` returns the counter plus one if the condition is the one stored,
  -- and else 1; a second call with the same condition, after some time in which nobody wrote,
  -- returns one more if that time is below the lifetime, and 1 otherwise.
  pub increment_count_lives :
      (t : AlertType) (c : AlertCondition) (n : ℕ) (span : Time) (s s' : client.St)
      → valid_alert_type t ≡ true
      → str_eq c "" ≡ false
      → Up s
      → CountsNow t n s
      → suc n < max_int64
      → Passes laws span (increment_count client r t c s).1 s'
      → let m = if str_eq (condition_now t s) c then suc n else 1 in
        ((increment_count client r t c s).0 ≡ ok (pos m))
        × ((increment_count client r t c s').0 ≡ ok (pos (if ltb span r.ttl then suc m else 1)))
  increment_count_lives t c n span s s' v full up num room gone =
      let kc = cond_key r.prefix t in
      let kn = count_key r.prefix t in
      let (apart, apart') = keys_apart t v in
      let m : ℕ = if str_eq (condition_now t s) c then suc n else 1 in
      let (s1, first, put) =
        increment_keys-IsWritten client laws r lives kc kn c n s up apart apart' full num
          (omega arith) in
      let here : increment_count client r t c s ≡ (ok (pos m), s1) =
        increment_count_keys client r t c s v ∙ first in
      let gone' : Passes laws span s1 s' =
        subst (λ z. Passes laws span z s') (ap (λ o. o.1) here) gone in
      (
        ap (λ o. o.0) here,
        ap (λ o. o.0) (increment_count_keys client r t c s' v)
            ∙ next_increment kc kn c m span s s1 s' put gone' apart apart' full (ground arith),
      )
