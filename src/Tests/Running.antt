-- ===== src/Tests/Running.antt =====
-- The start of the service, its steps, and what it is built from.
use server_watch.Base.{
  ◌≡◌, refl, ◌+◌, some, true, false, [], ◌∷◌, String, str_eq, ok, err, message, arith,
  if◌then◌else◌,
}
use server_watch.Base.Int.{pos}
use server_watch.Config.{load, load_from_yaml, load_from_env, validate, default_config}
use server_watch.Http.{fresh_response, status_of}
use server_watch.System.{
  World, Readings, collect_metrics, measure, record_metrics, evaluate, update_alerts,
  process_alerts, process_type,
}
use server_watch.System.Collector.{run_collector}
use server_watch.System.Balance.{surplus, run_collector-surplus}
use server_watch.Model.{Metrics}
use server_watch.Alerts.Memory.Laws.{memory_laws}
use server_watch.Data.{DataEnv, returned, read_memory_stats}
use server_watch.Data.Exact.{read_memory_stats-exact}
use server_watch.Storage.Connection.{Driver, counting, setup_database, new_sqlite, migrate}
use server_watch.Notifications.Sender.{send_from, send, format_notification}
use server_watch.Notifications.Sender.Rounds.{send_rounds}
use server_watch.Prometheus.Registry.{register_prometheus_metrics}
use server_watch.Server.{http_server}
use server_watch.Storage.{save_metrics}
use server_watch.Alerts.Memory.{increment_count}
use server_watch.Service.{
  Service, Surroundings, start, new_system, idle, waiting, measured, recorded, tick, save, request,
  after_request, here, next, advance,
}
use server_watch.Service.Process.{main, left_open, main-left_open}
use server_watch.Service.Sound.{IsSound}
use server_watch.Service.Invariant.{reachable-IsSound, failed_collector-health}
use server_watch.Tests.Stores.{Number, numbers, repository_laws}
use server_watch.Tests.Phases.{empty_memory}
use server_watch.Tests.Rounds.{world-IsFresh, deps, world, defaults, reading, sample}
use server_watch.Tests.Senders.{net, cpu_created, text}
use server_watch.Tests.Requests.{http_env, mounted, get}

abbrev pub surroundings : Surroundings deps
surroundings = record {
  repo = [];
  alerts = empty_memory;
  cache = tt;
  queue = [];
  files = tt;
  gauges = world.gauges;
  clock = 0;
}

abbrev first : World deps
first = (collect_metrics deps reading (new_system deps defaults "config.yaml" surroundings)).1

abbrev pub running : Service deps
running = record {
  world = first;
  collecting = true;
  phase = idle;
  serving = true;
  working = true;
  cancelled = false;
  stage = waiting;
  group = 3;
}

pub started : start deps (λ c s. (ok tt, s)) tt "" reading surroundings ≡ ok running
unfolding start load load_from_yaml load_from_env validate default_config
    register_prometheus_metrics collect_metrics measure record_metrics evaluate update_alerts
    process_alerts process_type new_system save_metrics increment_count
started = refl

-- The CPU cannot be read.
abbrev pub no_reading : Readings Number
no_reading = record reading { cpu = err (message "no /proc/stat") }

abbrev pub ended : Service deps
ended = advance deps http_env mounted false (measure deps no_reading) measured running

-- A second round has recorded its metrics, and a request for them comes before the alerts.
abbrev measuring : Service deps
measuring = advance deps http_env mounted false (measure deps reading) measured running

abbrev second : Metrics Number
second = record measuring.world.metrics { timestamp = 101 }

abbrev recording : Service deps
recording =
    advance deps http_env mounted false (record_metrics deps second) (λ _. recorded second)
      measuring

abbrev asked : Service deps
asked = after_request deps http_env mounted false "2" false (get "/metrics") recording

reachable-IsSound_example : IsSound deps asked
unfolding collect_metrics measure record_metrics evaluate update_alerts process_alerts process_type
    new_system save_metrics increment_count
reachable-IsSound_example =
    reachable-IsSound deps http_env mounted false (λ c s. (ok tt, s)) tt "" reading surroundings
      started
      (next (next (next here refl (tick reading refl refl)) refl (save second refl refl)) refl
        (request "2" false (get "/metrics") refl))

failed_collector-health_example :
    status_of
      (http_server http_env deps mounted false "2"
        (get "/health")
        (fresh_response false)
        ended.world).0
    ≡ 503
unfolding collect_metrics measure
failed_collector-health_example =
    failed_collector-health deps http_env mounted false (λ c s. (ok tt, s)) tt "" reading
      surroundings started (next here refl (tick no_reading refl refl)) "2" false (get "/health")
      refl refl refl

run_collector-surplus_example :
    surplus deps repository_laws memory_laws
      (run_collector deps (reading ∷ reading ∷ reading ∷ []) world).1
    ≡ pos 0
run_collector-surplus_example =
    run_collector-surplus deps repository_laws memory_laws (sample ∷ sample ∷ sample ∷ []) world
      world-IsFresh (omega arith)

send_rounds_example :
    send net "http://slack" cpu_created (503 ∷ 429 ∷ [])
    ≡ send_from net 5 0 "http://slack" text (503 ∷ 429 ∷ [])
unfolding format_notification
send_rounds_example =
    send_rounds net "http://slack" cpu_created (503 ∷ 429 ∷ []) 5 (omega arith) refl

-- A file of three lines of two fields.
abbrev meminfo : DataEnv
meminfo = record {
  lines = λ text. "MemTotal" ∷ "MemFree" ∷ "MemAvailable" ∷ [];
  fields = λ line. line ∷ line ∷ [];
  parse_uint = λ field. if str_eq field "MemTotal" then ok 4096 else ok 1024;
}

read_memory_stats-exact_example :
    read_memory_stats numbers meminfo (ok "") ≡ returned (ok (some 4, some 3, some 0))
read_memory_stats-exact_example = read_memory_stats-exact numbers meminfo "" 4096 1024 (record {
  l0 = "MemTotal";
  l1 = "MemFree";
  l2 = "MemAvailable";
  rest = [];
  total_field = "MemTotal";
  available_field = "MemAvailable";
  lines = refl;
  total_at = refl;
  available_at = refl;
  total_is = refl;
  available_is = refl;
  room = omega arith;
  bound = omega arith;
})

-- A database on which every statement succeeds.
abbrev database : Driver
database = record {
  St = Unit {0};
  Handle = String;
  open_handle = λ path s. (ok path, s);
  ping = λ db s. (ok tt, s);
  exec = λ db text s. (ok tt, s);
  close_handle = λ db s. s;
}

-- The database is set up, and the metrics cannot be registered.
main-left_open_example :
    let (ending, s') =
      main deps
        (counting database)
        (λ c r. (err (message "duplicate"), r))
        tt
        "CREATE TABLE"
        ""
        ""
        reading
        surroundings
        (ok tt)
        (tt, 0) in
    s'.1 ≡ left_open {A = String} ending (ok "server-watch.db") + 0
unfolding setup_database new_sqlite migrate
main-left_open_example =
    main-left_open deps database (λ c r. (err (message "duplicate"), r)) tt "CREATE TABLE" "" ""
      reading surroundings (ok tt) tt 0
