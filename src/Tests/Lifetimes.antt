-- ===== src/Tests/Lifetimes.antt =====
-- A Redis server with a clock, whose keys have lifetimes.
use server_watch.Base.{
  ℕ, suc, ◌+◌, ◌*◌, ◌<◌, ◌==◌, ◌≡◌, refl, false, Option, none, some, String, str_eq, Result, ok,
  err, foreign, message, if◌then◌else◌, arith,
}
use server_watch.Base.Int.{ℤ, pos, inc64, max_int64}
use server_watch.Model.{Time, second, alert_type_high_cpu, condition_high}
use server_watch.RedisClient.{RedisClient, reply, number}
use server_watch.RedisClient.Expiry.{ExpiryLaws, lasting, renewed, extended}
use server_watch.Alerts.Redis.{RedisAlertStateStore}
use server_watch.Alerts.Redis as Redis
use server_watch.Alerts.Redis.Lifetime.{increment_count_lives}
use server_watch.Tests.Client.{written, parsed, parsed-written}

-- What a key holds at each time.
record Clocked : Type 0 where
  time : Time
  content : String → Time → Option String

abbrev write : String → (Time → Option String) → Clocked → Clocked
write k f s = record s { content = λ u t. if str_eq u k then f t else s.content u t }

abbrev raised : String → Option ℤ → Clocked → Result ℤ × Clocked
raised k none s = (err (foreign 2), s)
raised k (some z) s = (
  ok (inc64 z),
  write k (λ t. renewed (written (inc64 z)) (s.content k s.time) (s.content k t)) s,
)

abbrev clocked : RedisClient
clocked = record {
  St = Clocked;
  get = λ k s. (reply (s.content k s.time), s);
  set = λ k v ttl s. (ok tt, write k (lasting v ttl s.time) s);
  incr = λ k s. raised k (number parsed (s.content k s.time)) s;
  expire = λ k ttl s.
      (ok tt, write k (λ t. extended (s.content k s.time) ttl s.time t (s.content k t)) s);
  eval = λ calls s. (err (message "no scripts"), s);
  rpush = λ k v s. (err (message "no lists"), s);
  brpop = λ t k s. (err (message "no lists"), s);
  format_int = written;
  parse_int = parsed;
}

raises :
    (k : String) (n : ℕ) (s : Clocked)
    → number parsed (s.content k s.time) ≡ some (pos n)
    → n < max_int64
    → clocked.incr k s ≡ (
      ok (pos (suc n)),
      write k (λ t. renewed (written (pos (suc n))) (s.content k s.time) (s.content k t)) s,
    )
raises k n s num lt = let inside : (n == max_int64) ≡ false = ground arith in rw (num, inside)

abbrev clocked_laws : ExpiryLaws clocked
clocked_laws = record {
  now = λ s. s.time;
  holds = λ s. s.content;
  Up = λ s. Unit {0};
  get_law = λ k s up. (s, refl, up, refl, λ u t. refl);
  set_law = λ k v ttl s up. (_, refl, up, refl, λ u t. refl);
  incr_law = λ k n s up num lt. (_, raises k n s num lt, up, refl, λ u t. refl);
  expire_law = λ k ttl s p up. (_, refl, up, refl, λ u t. refl);
  parse_format = parsed-written;
}

abbrev minute_store : RedisAlertStateStore
minute_store = record { ttl = 60 * second; prefix = "watch:" }

abbrev blank : Clocked
blank = record { time = 0; content = λ k t. none }

abbrev counted_once : Clocked
counted_once =
    (Redis.increment_count clocked minute_store alert_type_high_cpu condition_high blank).1

-- Two minutes after the first measurement.
increment_count_lives_example :
    ((Redis.increment_count clocked minute_store alert_type_high_cpu condition_high blank).0
      ≡ ok (pos 1))
    × ((Redis.increment_count clocked minute_store alert_type_high_cpu condition_high
          (record counted_once { time = counted_once.time + 120 * second })).0
        ≡ ok (pos 1))
increment_count_lives_example =
    increment_count_lives clocked clocked_laws minute_store (omega arith) alert_type_high_cpu
      condition_high 0 (120 * second) blank
      (record counted_once { time = counted_once.time + 120 * second }) refl refl tt refl
      (omega arith) (record { up = tt; later = refl; kept = λ k t h. refl })
