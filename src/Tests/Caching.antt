-- ===== src/Tests/Caching.antt =====
-- The metrics cache over a concrete server. A time is written as an integer.
use server_watch.Base.{
  ◌≡◌, refl, true, false, none, some, String, str_eq, ◌&&◌, ok, err, foreign, if◌then◌else◌,
}
use server_watch.Base.Int.{ℤ, pos}
use server_watch.Model.{Metrics, second}
use server_watch.Cache.{RedisMetricsCache, TextFormat, set_metrics, get_metrics}
use server_watch.Cache.RoundTrip.{Holds, get_metrics-set_metrics}
use server_watch.Cache.Torn.{BreaksOff, get_metrics_torn}
use server_watch.RedisClient.{RedisClient, RedisLaws, put}
use server_watch.Tests.Stores.{Number, numbers}
use server_watch.Tests.Client.{
  Server, server, server_laws, no_keys, written, digits, parsed-written, increments,
}

abbrev as_integer : Number → ℤ
as_integer none = ℤ.negsuc 0
as_integer (some n) = pos n

abbrev pub format : TextFormat Number
format = record {
  format_float = λ x. written (as_integer x);
  parse_float = λ text. ok (some (digits text));
  format_time = λ at. written (pos at);
  parse_time = λ text. ok (digits text);
}

abbrev cache : RedisMetricsCache
cache = record { ttl = second; prefix = "watch:metrics:" }

abbrev busy_machine : Metrics Number
busy_machine = record {
  cpu_usage = some 3;
  mem_usage = some 0;
  mem_used_mb = some 8;
  mem_total_mb = some 4;
  disk_usage = some 0;
  disk_used = some 6;
  disk_total = some 2;
  timestamp = 5;
}

get_metrics-set_metrics_example :
    (get_metrics numbers format server cache
      (set_metrics numbers format server cache busy_machine no_keys).1).0
    ≡ ok (record busy_machine { mem_usage = some 200; disk_usage = some 300 })
get_metrics-set_metrics_example =
    get_metrics-set_metrics numbers format server server_laws cache busy_machine no_keys refl
      (record {
        cpu = refl;
        mem_used = refl;
        mem_total = refl;
        disk_used = refl;
        disk_total = refl;
        timestamp = refl;
        mem_nonzero = refl;
        disk_nonzero = refl;
      })

-- The server, which fails once to store the second value of the cache while it is busy.
abbrev flaky : RedisClient
flaky = record server {
  set = λ k v ttl s.
      if s.busy && str_eq k "watch:metrics:mem_used"
      then (err (foreign 1), record s { busy = false })
      else (ok tt, record s { values = put k v s.values });
}

flaky_sets :
    (k v : String) (s : Server)
    → s.busy ≡ false
    → flaky.set k v second s ≡ (ok tt, record s { values = put k v s.values })
flaky_sets k v s up = rw up

abbrev flaky_laws : RedisLaws flaky
flaky_laws = record {
  value = λ s. s.values;
  Up = λ s. s.busy ≡ false;
  get_law = λ k s up. (s, rw up, up, refl);
  set_law = λ k v ttl s up. (_, flaky_sets k v s up, up, refl);
  incr_law = λ k n s up num lt. (_, increments k n s num lt, up, refl);
  expire_law = λ k ttl s p up. (s, refl, up, refl);
  eval_law = λ calls s p up. (_, refl, up, refl);
  parse_format = parsed-written;
  format_zero = refl;
  format_one = refl;
}

-- The next round.
abbrev calm_machine : Metrics Number
calm_machine = record busy_machine { cpu_usage = some 1; mem_used_mb = some 2; timestamp = 9 }

-- The busy machine's metrics are stored, and the next `SET` of the second key fails.
abbrev about_to_fail : Server
about_to_fail = record {
  busy = true;
  values = (set_metrics numbers format server cache busy_machine no_keys).1.values;
  lists = no_keys.lists;
}

about_to_fail-Holds : Holds numbers format flaky flaky_laws cache busy_machine about_to_fail
unfolding set_metrics
about_to_fail-Holds = record {
  cpu = refl;
  mem_used = refl;
  mem_total = refl;
  disk_used = refl;
  disk_total = refl;
  timestamp = refl;
}

abbrev after_failure : Server
after_failure = record about_to_fail {
  busy = false;
  values = put "watch:metrics:cpu" "1" about_to_fail.values;
}

broken_off :
    BreaksOff numbers format flaky flaky_laws cache calm_machine about_to_fail after_failure
unfolding set_metrics
broken_off = record {
  middle = record after_failure { busy = true };
  stored = refl;
  written = refl;
  error = foreign 1;
  fails = refl;
  kept = refl;
  up = refl;
}

get_metrics_torn_example :
    ((set_metrics numbers format flaky cache calm_machine about_to_fail).1 ≡ after_failure)
    × ((get_metrics numbers format flaky cache
          (set_metrics numbers format flaky cache calm_machine about_to_fail).1).0
        ≡ ok (record busy_machine {
          cpu_usage = some 1;
          mem_usage = some 200;
          disk_usage = some 300;
        }))
get_metrics_torn_example =
    get_metrics_torn numbers format flaky flaky_laws cache busy_machine calm_machine about_to_fail
      after_failure about_to_fail-Holds
      (record {
        cpu = refl;
        mem_used = refl;
        mem_total = refl;
        disk_used = refl;
        disk_total = refl;
        timestamp = refl;
        mem_nonzero = refl;
        disk_nonzero = refl;
      })
      broken_off
