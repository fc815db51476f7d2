-- ===== src/Tests/Outages.antt =====
-- The system that `main` builds, with Redis out of reach.
use server_watch.Base.{◌+◌, ◌≡◌, refl, true, false, none, some, [], ◌∷◌, ok, err, foreign, arith}
use server_watch.Model.{alert_type_high_cpu, alert_type_high_mem}
use server_watch.RedisClient.{RedisClient}
use server_watch.Cache.{TextFormat}
use server_watch.Notifications.Queue.{NotificationCodec}
use server_watch.Alerts.Redis.Unreachable.{Unreachable}
use server_watch.System.Interfaces.{Deps}
use server_watch.System.{World}
use server_watch.System.Collector.{run_collector}
use server_watch.System.Counting.{is_raised}
use server_watch.Service.Wiring.{wired, repo_laws, store_laws, unreachable-verdict}
use server_watch.Tests.Stores.{Number, numbers, table, table_laws}
use server_watch.Tests.Phases.{empty_memory}
use server_watch.Tests.Rounds.{env, world, reading, sample}

-- A client of which every command fails.
abbrev offline : RedisClient
offline = record {
  St = Unit {0};
  get = λ k s. (err (foreign 1), s);
  set = λ k v ttl s. (err (foreign 1), s);
  incr = λ k s. (err (foreign 1), s);
  expire = λ k ttl s. (err (foreign 1), s);
  eval = λ script s. (err (foreign 1), s);
  rpush = λ k v s. (err (foreign 1), s);
  brpop = λ t k s. (err (foreign 1), s);
  format_int = λ n. "";
  parse_int = λ text. none;
}

abbrev offline_Unreachable : Unreachable offline
offline_Unreachable = record {
  Down = λ s. Unit {0};
  get_fails = λ k s down. (foreign 1, s, refl, down, refl);
  set_fails = λ k v ttl s down. (foreign 1, s, refl, down);
  eval_fails = λ script s down. (foreign 1, s, refl, down);
}

abbrev pub plain : TextFormat Number
plain = record {
  format_float = λ x. "";
  parse_float = λ text. ok (some 0);
  format_time = λ t. "";
  parse_time = λ text. ok 0;
}

abbrev codec : NotificationCodec Number
codec = record {
  marshal = λ n. ok "";
  unmarshal = λ text. err (foreign 2);
  empty = record { kind = ""; action = ""; value = some 0; threshold = some 0; timestamp = 0 };
}

abbrev alone : Deps Number
alone = wired numbers env table offline plain codec (λ n. 100 + n)

abbrev alone_world : World alone
alone_world = record {
  metrics = world.metrics;
  last_success = 0;
  last_error = none;
  config = world.config;
  config_path = "config.yaml";
  repo = [];
  alerts = record { memory = empty_memory; redis_st = tt; redis_failed = false };
  cache = tt;
  queue = tt;
  files = tt;
  gauges = world.gauges;
  clock = 0;
}

unreachable-verdict_example :
    let rl =
      repo_laws numbers env table offline plain codec
        (λ n. 100 + n)
        table_laws
        offline_Unreachable in
    let sl =
      store_laws numbers env table offline plain codec
        (λ n. 100 + n)
        table_laws
        offline_Unreachable in
    (w' : World alone) × (run_collector alone (reading ∷ reading ∷ reading ∷ []) alone_world
      ≡ (ok tt, w'))
    × (is_raised alone rl sl w' alert_type_high_cpu ≡ true)
    × (is_raised alone rl sl w' alert_type_high_mem ≡ false)
unreachable-verdict_example =
    unreachable-verdict numbers env table offline plain codec (λ n. 100 + n) table_laws
      offline_Unreachable (sample ∷ sample ∷ sample ∷ []) alone_world
      (record {
        cpu_count = refl;
        cpu_condition = refl;
        mem_count = refl;
        mem_condition = refl;
        repo_ready = (tt, (tt, tt, tt));
        store_ready = (tt, tt);
      })
      (omega arith)
