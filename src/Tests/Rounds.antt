-- ===== src/Tests/Rounds.antt =====
-- Rounds of the collector.
use server_watch.Base.{
  ◌≡◌, refl, ◌+◌, true, false, none, some, List, [], ◌∷◌, message, ok, err, arith,
}
use server_watch.Base.Int.{pos}
use server_watch.Model.{
  Metrics, Notification, alert_type_high_cpu, alert_type_high_mem, condition_high,
}
use server_watch.Config.{Config, ConfigEnv}
use server_watch.Alerts.Store.{to_store}
use server_watch.Alerts.Memory.{memory_backend}
use server_watch.Alerts.Memory.Laws.{memory_laws}
use server_watch.System.Interfaces.{Deps}
use server_watch.System.{World, Readings, process_type, collect_metrics}
use server_watch.System.Alerting.{process_type-Turns}
use server_watch.System.Turns.{Turns}
use server_watch.System.Collection.{measured, collect_metrics-Collected}
use server_watch.System.Counting.{is_raised}
use server_watch.System.Evaluation.{Collected}
use server_watch.System.Collector.{run_collector}
use server_watch.System.Hysteresis.{IsFresh, run_collector-verdict}
use server_watch.System.Settings.Ignored.{collect_metrics_ignores_config}
use server_watch.Tests.Stores.{Number, numbers, repository, repository_laws}
use server_watch.Tests.Phases.{empty_memory}

abbrev pub env : ConfigEnv Number
env = record {
  Fs = Unit {0};
  read_file = λ path s. (ok "", s);
  write_file = λ path text s. (ok tt, s);
  marshal = λ cfg. ok "";
  unmarshal = λ text cfg. ok cfg;
  lookup_env = λ name. none;
  parse_float = λ text. ok (some 0);
  atoi = λ text. ok (pos 0);
  parse_bool = λ text. ok true;
  parse_url = λ text. none;
}

abbrev pub defaults : Config Number
defaults = record {
  cpu_threshold = some 80;
  mem_threshold = some 90;
  trigger_count = pos 3;
  resolve_count = pos 3;
  slack_enabled = false;
  slack_url = "";
  pprof_enabled = false;
}

abbrev pub no_metrics : Metrics Number
no_metrics = record {
  cpu_usage = some 0;
  mem_usage = some 0;
  mem_used_mb = some 0;
  mem_total_mb = some 0;
  disk_usage = some 0;
  disk_used = some 0;
  disk_total = some 0;
  timestamp = 0;
}

abbrev pub deps : Deps Number
deps = record {
  floats = numbers;
  env = env;
  repository = repository;
  alert_state = to_store memory_backend;
  has_cache = false;
  cache = record {
    St = Unit {0};
    set_metrics = λ m s. (ok tt, s);
    get_metrics = λ s. (ok no_metrics, s);
  };
  queue = record {
    St = List (Notification Number);
    push = λ n s. (ok tt, n ∷ s);
    consume = λ s. (err (message "empty"), s);
  };
  now = λ n. 100 + n;
}

abbrev pub world : World deps
world = record {
  metrics = no_metrics;
  last_success = 0;
  last_error = none;
  config = defaults;
  config_path = "config.yaml";
  repo = [];
  alerts = empty_memory;
  cache = tt;
  queue = [];
  files = tt;
  gauges = record {
    cpu_percent = some 0;
    mem_used_mb = some 0;
    mem_total_mb = some 0;
    disk_used_gb = some 0;
    disk_total_gb = some 0;
    alerts_active_total = pos 0;
    alerts_total = 0;
    http_latency = [];
  };
  clock = 0;
}

abbrev pub sample : Number × (Number × Number × Number) × (Number × Number × Number)
sample = (some 95, (some 100, some 10, some 10), (some 100, some 50, some 50))

abbrev pub reading : Readings Number
reading = record { cpu = ok sample.0; mem = ok sample.1; disk = ok sample.2 }

pub world-IsFresh : IsFresh deps repository_laws memory_laws world
world-IsFresh = record {
  cpu_count = refl;
  cpu_condition = refl;
  mem_count = refl;
  mem_condition = refl;
  repo_ready = (tt, (tt, tt, tt));
  store_ready = tt;
}

process_type-Turns_example :
    (w' : World deps) × (process_type deps alert_type_high_cpu
        (some 95)
        (some 80)
        condition_high
        (pos 3)
        world
      ≡ (ok tt, w'))
    × Turns deps repository_laws alert_type_high_cpu (some 95) (some 80) true world w'
process_type-Turns_example =
    process_type-Turns deps repository_laws alert_type_high_cpu (some 95) (some 80) condition_high
      (pos 3) world refl (tt, (tt, tt, tt))

collect_metrics-Collected_example :
    (w' : World deps) × (collect_metrics deps reading world ≡ (ok tt, w'))
    × Collected deps repository_laws memory_laws
        (measured deps repository_laws memory_laws (some 95) sample.1 sample.2 world)
        world
        w'
    × (w'.metrics ≡ measured deps repository_laws memory_laws (some 95) sample.1 sample.2 world)
    × (w'.last_success ≡ 100)
    × (w'.last_error ≡ none)
collect_metrics-Collected_example =
    collect_metrics-Collected deps repository_laws memory_laws (some 95) sample.1 sample.2 world
      (record {
        repo_ready = (tt, (tt, tt, tt));
        store_ready = tt;
        cpu_room = (refl, omega arith);
        mem_room = (refl, omega arith);
      })

collect_metrics_ignores_config_example :
    collect_metrics deps reading
      (record world { config = record defaults { cpu_threshold = some 99 } })
    ≡ (
      (collect_metrics deps reading world).0,
      record (collect_metrics deps reading world).1 {
        config = record defaults { cpu_threshold = some 99 };
      },
    )
collect_metrics_ignores_config_example =
    collect_metrics_ignores_config deps reading (record defaults { cpu_threshold = some 99 }) world

-- Three high measurements of the CPU in a row raise its alert.
run_collector-verdict_example :
    (w' : World deps) × (run_collector deps (reading ∷ reading ∷ reading ∷ []) world ≡ (ok tt, w'))
    × (is_raised deps repository_laws memory_laws w' alert_type_high_cpu ≡ true)
    × (is_raised deps repository_laws memory_laws w' alert_type_high_mem ≡ false)
run_collector-verdict_example =
    run_collector-verdict deps repository_laws memory_laws (sample ∷ sample ∷ sample ∷ []) world
      world-IsFresh (omega arith)
