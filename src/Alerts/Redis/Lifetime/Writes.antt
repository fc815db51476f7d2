-- ===== src/Alerts/Redis/Lifetime/Writes.antt =====
-- What `IncrementCount` of the Redis store writes, and for how long.
use server_watch.Base.{
  ℕ, suc, ◌<◌, ◌≡◌, refl, Option, none, some, true, false, String, str_eq, str_eq-refl, str_eq_iff,
  Bool-cases, inl, inr, arith, if◌then◌else◌, ok, ap, ◌∙◌,
}
use server_watch.Base.Int.{pos, max_int64}
use server_watch.Model.{Time, AlertCondition}
use server_watch.RedisClient.{RedisClient, number}
use server_watch.RedisClient.Expiry.{ExpiryLaws, lasting, renewed}
use server_watch.Alerts.Redis.{RedisAlertStateStore, increment_keys}
use server_watch.Alerts.Redis.View.{text_of}

module _ (client : RedisClient) (laws : ExpiryLaws client) (r : RedisAlertStateStore)
    (lives : 0 < r.ttl) where
  open laws use {now, holds, Up, get_law, set_law, incr_law, expire_law}

  -- Both keys hold what was written, for the lifetime of the store.
  pub record IsWritten (kc kn : String) (c : AlertCondition) (n : ℕ) (s s' : client.St)
      : Type 0 where
    pub up : Up s'
    pub clock : now s' ≡ now s
    pub condition : (t : Time) → holds s' kc t ≡ lasting c r.ttl (now s) t
    pub count : (t : Time) → holds s' kn t ≡ lasting (client.format_int (pos n)) r.ttl (now s) t

  other_condition-IsWritten :
      (kc kn : String) (c : AlertCondition) (s : client.St)
      → Up s
      → str_eq kc kn ≡ false
      → str_eq (text_of (holds s kc (now s))) c ≡ false
      → (s' : client.St) × (increment_keys client r kc kn c s ≡ (ok (pos 1), s'))
        × IsWritten kc kn c 1 s s'
  unfolding increment_keys
  other_condition-IsWritten kc kn c s up apart other =
      let (s1, e1, u1, t1, h1) = get_law kc s up in
      let (s2, e2, u2, t2, h2) = set_law kc c r.ttl s1 u1 in
      let (s3, e3, u3, t3, h3) = set_law kn (client.format_int (pos 1)) r.ttl s2 u2 in
      (
        s3,
        ground arith,
        record {
          up = u3;
          clock = t3 ∙ t2 ∙ t1;
          condition = λ t. rw (h3 kc t, apart, h2 kc t, str_eq-refl kc, t1);
          count = λ t. rw (h3 kn t, str_eq-refl kn, t2, t1);
        },
      )

  text_of-some : (o : Option String) (c : String) → text_of o ≡ c → str_eq c "" ≡ false → o ≡ some c
  text_of-some none c e full = absurd (ground (arith, str_eq_iff c "", e, full))
  text_of-some (some v) c e full = ap some e

  renewed_self : (v : String) (o : Option String) → renewed v o o ≡ some v
  renewed_self v none = refl
  renewed_self v (some w) = refl

  same_condition-IsWritten :
      (kc kn : String) (c : AlertCondition) (n : ℕ) (s : client.St)
      → Up s
      → str_eq kc kn ≡ false
      → str_eq kn kc ≡ false
      → holds s kc (now s) ≡ some c
      → number client.parse_int (holds s kn (now s)) ≡ some (pos n)
      → n < max_int64
      → (s' : client.St) × (increment_keys client r kc kn c s ≡ (ok (pos (suc n)), s'))
        × IsWritten kc kn c (suc n) s s'
  unfolding increment_keys
  same_condition-IsWritten kc kn c n s up apart apart' has num lt =
      let (s1, e1, u1, t1, h1) = get_law kc s up in
      let num1 : number client.parse_int (holds s1 kn (now s1)) ≡ some (pos n) =
        rw (t1, h1 kn (now s)) num in
      let (s2, e2, u2, t2, h2) = incr_law kn n s1 u1 num1 lt in
      let (s3, e3, u3, t3, h3) = expire_law kn r.ttl s2 lives u2 in
      let (s4, e4, u4, t4, h4) = expire_law kc r.ttl s3 lives u3 in
      let new : String = client.format_int (pos (suc n)) in
      let counted : holds s2 kn (now s2) ≡ some new =
        rw (t2, h2 kn (now s1), str_eq-refl kn) (renewed_self new _) in
      let kept : holds s3 kc (now s3) ≡ some c =
        rw (t3, t2, t1, h3 kc (now s), h2 kc (now s), h1 kc (now s), apart) has in
      let same : str_eq (text_of (holds s kc (now s))) c ≡ true = rw has (str_eq-refl c) in
      (
        s4,
        ground (arith, same),
        record {
          up = u4;
          clock = t4 ∙ t3 ∙ t2 ∙ t1;
          condition = λ t. rw (h4 kc t, str_eq-refl kc, kept, t3, t2, t1);
          count = λ t. rw (h4 kn t, apart', h3 kn t, str_eq-refl kn, counted, t2, t1);
        },
      )

  -- `IncrementCount` on the keys of a type.
  pub increment_keys-IsWritten :
      (kc kn : String) (c : AlertCondition) (n : ℕ) (s : client.St)
      → Up s
      → str_eq kc kn ≡ false
      → str_eq kn kc ≡ false
      → str_eq c "" ≡ false
      → number client.parse_int (holds s kn (now s)) ≡ some (pos n)
      → n < max_int64
      → let m = if str_eq (text_of (holds s kc (now s))) c then suc n else 1 in
        (s' : client.St) × (increment_keys client r kc kn c s ≡ (ok (pos m), s'))
        × IsWritten kc kn c m s s'
  increment_keys-IsWritten kc kn c n s up apart apart' full num lt =
      let held = text_of (holds s kc (now s)) in
      elim (Bool-cases (str_eq held c)) [
        | inl same ↦
            let has = text_of-some (holds s kc (now s)) c ((str_eq_iff held c).0 same) full in
            rw same (same_condition-IsWritten kc kn c n s up apart apart' has num lt)
        | inr other ↦ rw other (other_condition-IsWritten kc kn c s up apart other)
      ]
