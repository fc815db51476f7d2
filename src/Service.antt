-- ===== src/Service.antt =====
-- The service that cmd/server-watch/main.go puts together, after its start: the collector's steps,
-- requests, the worker's reads of the queue and the end of `main` in any order. A round of the
-- collector is three steps, so that requests fall between them; a request is one. `http.Server` and
-- the context are taken as documented: no request is served once `Shutdown` has returned `nil`, and
-- the context stays cancelled; a wait group is its counter, and `Wait` returns once that is 0.
pub mod Rounds
pub mod Draining
pub mod Ordered
pub mod Shutdown
pub mod Sound
pub mod Invariant
pub mod Process
pub mod Wiring
pub mod Delivery
pub mod Current
use server_watch.Base.{
  ℕ, ◌-◌, ◌≡◌, Bool, true, false, Option, none, Result, ok, err, Error, String, Action, List, [],
  ◌∷◌, if◌then◌else◌,
}
use server_watch.Base.Int.{pos}
use server_watch.Model.{Metrics}
use server_watch.Prometheus.{Gauges}
use server_watch.Prometheus.Registry.{Collector, register_prometheus_metrics}
use server_watch.Storage.Connection.{or_default}
use server_watch.Config.{Config, load}
use server_watch.Notifications.Worker.{Sender}
use server_watch.Notifications.Sender.{SenderEnv, send}
use server_watch.Http.{Request, fresh_response}
use server_watch.System.Interfaces.{Deps}
use server_watch.System.{World, Readings, measure, record_metrics, evaluate, collect_metrics}
use server_watch.Handlers.{HttpEnv}
use server_watch.Server.{Mounted, http_server}

-- Where the collector's goroutine stands: it waits for the ticker, or is in a round whose metrics
-- are measured, or also recorded.
pub data Phase (F : Type 0) : Type 0 where
  idle : Phase F
  measured : Metrics F → Phase F
  recorded : Metrics F → Phase F

-- Where `main` stands: in its `select`, in `server.Shutdown`, in `wg.Wait`, or at an end.
pub data Stage : Type 0 where
  waiting : Stage
  stopping : Stage
  joining : Stage
  returned : Stage
  exited : Stage

abbrev pub is_over : Stage → Bool
is_over returned = true
is_over exited = true
is_over _ = false

abbrev pub takes_requests : Stage → Bool
takes_requests waiting = true
takes_requests stopping = true
takes_requests _ = false

-- `server.Shutdown` has been called, which ends `ListenAndServe`.
abbrev pub is_shut : Stage → Bool
is_shut stopping = true
is_shut joining = true
is_shut _ = false

-- `collecting`, `serving` and `working` tell whether the goroutines of `startMetricsCollector`, of
-- `startHTTPServer` and of the worker still run, `cancelled` whether the context is done. `group` is
-- the counter of the wait group.
pub record Service {F : Type 0} (d : Deps F) : Type 0 where
  pub world : World d
  pub collecting : Bool
  pub phase : Phase F
  pub serving : Bool
  pub working : Bool
  pub cancelled : Bool
  pub stage : Stage
  pub group : ℕ

-- `wg.Done()`
abbrev pub done : ℕ → ℕ
done n = n - 1

-- The goroutine of a part that failed returns, and its deferred `wg.Done()` runs.
abbrev pub done_unless : Bool → ℕ → ℕ
done_unless going n = if going then n else done n

-- What the process finds at its start: the stores, the file system and the gauges.
pub record Surroundings {F : Type 0} (d : Deps F) : Type 0 where
  pub repo : d.repository.St
  pub alerts : d.alert_state.St
  pub cache : d.cache.St
  pub queue : d.queue.St
  pub files : d.env.Fs
  pub gauges : Gauges F
  pub clock : ℕ

abbrev pub succeeded : {A : Type 0} → Result A → Bool
succeeded (ok _) = true
succeeded (err _) = false

abbrev pub phase_after : {F A : Type 0} → (A → Phase F) → Result A → Phase F
phase_after continue (ok a) = continue a
phase_after continue (err _) = idle

module _ {F : Type 0} (d : Deps F) where
  -- `model.Metrics{}`
  abbrev pub zero_metrics : Metrics F
  zero_metrics = record {
    cpu_usage = d.floats.of_ℕ 0;
    mem_usage = d.floats.of_ℕ 0;
    mem_used_mb = d.floats.of_ℕ 0;
    mem_total_mb = d.floats.of_ℕ 0;
    disk_usage = d.floats.of_ℕ 0;
    disk_used = d.floats.of_ℕ 0;
    disk_total = d.floats.of_ℕ 0;
    timestamp = 0;
  }

  unfoldable pub new_system : Config F → String → Surroundings d → World d
  new_system cfg path x = record {
    metrics = zero_metrics;
    last_success = 0;
    last_error = none;
    config = cfg;
    config_path = path;
    repo = x.repo;
    alerts = x.alerts;
    cache = x.cache;
    queue = x.queue;
    files = x.files;
    gauges = x.gauges;
    clock = x.clock;
  }

  -- `main` from `NewSystem` to the start of the goroutines; `registered` is the result of
  -- `RegisterPrometheusMetrics`. An error ends the process.
  abbrev pub first_round :
      Config F → String → Readings F → Result (Unit {0}) → Surroundings d → Result (Service d)
  first_round cfg path rd registered x =
      let (collected, w) = collect_metrics d rd (new_system cfg path x) in
      elim collected [
        | err e ↦ err e
        | ok _ ↦ elim registered [
          | err e ↦ err e
          | ok _ ↦ ok (record {
            world = w;
            collecting = true;
            phase = idle;
            serving = true;
            working = true;
            cancelled = false;
            stage = waiting;
            group = 3;
          })
        ]
      ]

  -- `main` from `config.Load` on; `config_path` is the value of `CONFIG_PATH`.
  unfoldable pub start :
      {R : Type 0}
      → (Collector → Action R (Unit {0}))
      → R
      → String
      → Readings F
      → Surroundings d
      → Result (Service d)
  start register registry config_path rd x =
      let path = or_default "config.yaml" config_path in
      let (loaded, files) = load d.floats d.env path x.files in
      let registered = (register_prometheus_metrics register registry).0 in
      elim loaded [
        | err e ↦ err e
        | ok cfg ↦ first_round cfg path rd registered (record x { files = files })
      ]

  -- The senders of the worker; `http.DefaultClient` is in `net`.
  abbrev pub senders_of : (net : SenderEnv F) → Config F → List (Sender F net.St)
  senders_of net cfg = if cfg.slack_enabled then send net cfg.slack_url ∷ [] else []

  module _ (env : HttpEnv F) (mounted : Mounted F) (pprof : Bool) where
    -- A part of a round, with what follows it; an error ends the collector.
    abbrev pub advance : {A : Type 0} → Action (World d) A → (A → Phase F) → Service d → Service d
    advance act continue s =
        let (result, w) = act s.world in
        record s {
          world = w;
          collecting = succeeded result;
          phase = phase_after continue result;
          group = done_unless (succeeded result) s.group;
        }

    -- `fresh` is the new identifier, and `broken` tells whether writing to the client fails.
    abbrev pub after_request : String → Bool → Request → Service d → Service d
    after_request fresh broken r s =
        let (response, w) =
          http_server env d mounted pprof fresh r (fresh_response broken) s.world in
        record s { world = w }

    abbrev pub after_consume : Service d → Service d
    after_consume s = record s {
      world = record s.world { queue = (d.queue.consume s.world.queue).1 };
    }

    pub data Step (s : Service d) : Service d → Type 0 where
      tick :
          (rd : Readings F)
          → s.collecting ≡ true
          → s.phase ≡ idle
          → Step s (advance (measure d rd) measured s)
      save :
          (m : Metrics F)
          → s.collecting ≡ true
          → s.phase ≡ measured m
          → Step s (advance (record_metrics d m) (λ _. recorded m) s)
      alert :
          (m : Metrics F)
          → s.collecting ≡ true
          → s.phase ≡ recorded m
          → Step s (advance (evaluate d m) (λ _. idle) s)
      collector_stops :
          s.collecting ≡ true
          → s.phase ≡ idle
          → s.cancelled ≡ true
          → Step s (record s { collecting = false; group = done s.group })
      request :
          (fresh : String) (broken : Bool) (r : Request)
          → takes_requests s.stage ≡ true
          → Step s (after_request fresh broken r s)
      consume : s.working ≡ true → Step s (after_consume s)
      worker_stops :
          s.working ≡ true
          → s.cancelled ≡ true
          → Step s (record s { working = false; group = done s.group })
      server_fails : s.serving ≡ true → Step s (record s { serving = false; group = done s.group })
      server_closes :
          s.serving ≡ true
          → is_shut s.stage ≡ true
          → Step s (record s { serving = false; group = done s.group })
      signal : Step s (record s { cancelled = true })
      on_signal : s.stage ≡ waiting → s.cancelled ≡ true → Step s (record s { stage = stopping })
      on_collector :
          s.stage ≡ waiting
          → s.collecting ≡ false
          → Step s (record s { stage = stopping; cancelled = true })
      on_server :
          s.stage ≡ waiting
          → s.serving ≡ false
          → Step s (record s { stage = stopping; cancelled = true })
      shutdown_done : s.stage ≡ stopping → Step s (record s { stage = joining })
      shutdown_fails : s.stage ≡ stopping → Step s (record s { stage = exited })
      all_done : s.stage ≡ joining → s.group ≡ 0 → Step s (record s { stage = returned })

    -- Nothing happens once `main` is over.
    pub data Reach (s : Service d) : Service d → Type 0 where
      here : Reach s s
      next : {t u : Service d} → Reach s t → is_over t.stage ≡ false → Step t u → Reach s u
