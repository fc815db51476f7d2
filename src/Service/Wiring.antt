-- ===== src/Service/Wiring.antt =====
-- What `main` of cmd/server-watch/main.go builds the system on, and the alerts of that system while
-- Redis cannot be reached. The cache, the alert states and the queue use disjoint keys, so each
-- has a state of the server of its own.
use server_watch.Base.{ℕ, ◌*◌, ◌≡◌, ◌≤◌, true, List, length, map, ok}
use mathlib.Core.List.{reverse}
use server_watch.Base.Int.{max_int64}
use server_watch.Model.{Floats, Time, second, alert_type_high_cpu, alert_type_high_mem}
use server_watch.Config.{ConfigEnv}
use server_watch.RedisClient.{RedisClient}
use server_watch.Cache
use server_watch.Cache.{RedisMetricsCache, TextFormat}
use server_watch.Notifications.Queue
use server_watch.Notifications.Queue.{NotificationCodec}
use server_watch.Alerts.Memory.{memory_backend}
use server_watch.Alerts.Memory.Laws.{memory_laws, memory_GivesSnapshots}
use server_watch.Alerts.Redis.{RedisAlertStateStore, redis_backend}
use server_watch.Alerts.Redis.Unreachable.{Unreachable, unreachable_Fails}
use server_watch.Alerts.Store.{StoreLaws}
use server_watch.Alerts.Fallback.{fallback_store}
use server_watch.Alerts.Fallback.Outage.{outage_laws}
use server_watch.Storage.{Sql, sqlite_repository}
use server_watch.Storage.ActiveRows.{SqlLaws}
use server_watch.Storage.Contract.{sqlite_laws}
use server_watch.System.Interfaces.{Deps, RepositoryLaws}
use server_watch.System.{World}
use server_watch.System.Collector.{run_collector}
use server_watch.System.Counting.{is_raised}
use server_watch.System.Hysteresis.{
  Sample, readings, cpu_above, mem_above, IsFresh, run_collector-verdict,
}
use server_watch.System.Hysteresis.Verdict.{verdict}

abbrev pub cache_settings : RedisMetricsCache
cache_settings = record { ttl = 30 * second; prefix = "server-watch:metrics:" }

abbrev pub alert_settings : RedisAlertStateStore
alert_settings = record { ttl = 60 * second; prefix = "server-watch:alert:" }

module _ {F : Type 0} (fl : Floats F) (env : ConfigEnv F) (sql : Sql F) (client : RedisClient)
    (text : TextFormat F) (codec : NotificationCodec F) (now : ℕ → Time) where
  abbrev pub wired : Deps F
  wired = record {
    floats = fl;
    env = env;
    repository = sqlite_repository fl sql;
    alert_state = fallback_store memory_backend (redis_backend client alert_settings);
    has_cache = true;
    cache = record {
      St = client.St;
      set_metrics = Cache.set_metrics fl text client cache_settings;
      get_metrics = Cache.get_metrics fl text client cache_settings;
    };
    queue = record {
      St = client.St;
      push = Queue.push client codec "server-watch:";
      consume = Queue.consume client codec "server-watch:";
    };
    now = now;
  }

  module _ (db : SqlLaws sql) (gone : Unreachable client) where
    abbrev pub repo_laws : RepositoryLaws wired.repository
    repo_laws = sqlite_laws fl sql db

    abbrev pub store_laws : StoreLaws wired.alert_state
    store_laws =
        outage_laws memory_backend (redis_backend client alert_settings) memory_laws
          memory_GivesSnapshots (unreachable_Fails client alert_settings gone)

    -- On the stores that `main` builds, with a database that does what its statements say and a
    -- Redis server that cannot be reached, from counters at the start and over at most 2^63 - 1
    -- ticks with every reading at hand, the collector's loop succeeds, and each alert is active
    -- afterwards exactly as the newest three measurements in a row on the same side of its
    -- threshold decide, or as before if there were no such three.
    pub unreachable-verdict :
        (xs : List (Sample wired repo_laws store_laws)) (w : World wired)
        → IsFresh wired repo_laws store_laws w
        → length xs ≤ max_int64
        → (w' : World wired) × (run_collector wired (map (readings wired repo_laws store_laws) xs) w
            ≡ (ok tt, w'))
          × (is_raised wired repo_laws store_laws w' alert_type_high_cpu
              ≡ verdict
                  (is_raised wired repo_laws store_laws w alert_type_high_cpu)
                  (reverse (map (cpu_above wired repo_laws store_laws) xs)))
          × (is_raised wired repo_laws store_laws w' alert_type_high_mem
              ≡ verdict
                  (is_raised wired repo_laws store_laws w alert_type_high_mem)
                  (reverse (map (mem_above wired repo_laws store_laws) xs)))
    unreachable-verdict = run_collector-verdict wired repo_laws store_laws
