-- ===== src/Server.antt =====
-- The HTTP server of cmd/server-watch/main.go: `newHTTPServer`. A pattern of `http.ServeMux` that ends
-- in a slash stands for all paths below it, any other for its path alone, and the longest pattern
-- wins; the redirect of a path that is not clean is left out. The handlers of `net/http/pprof` and of
-- the Prometheus client are parameters.
pub mod Routes
pub mod Effects
pub mod Recording
pub mod Verdicts
pub mod Replies
pub mod Updates
pub mod Bounds
use server_watch.Base.{
  suc, Bool, true, false, List, [], ◌∷◌, Option, none, some, String, str_eq, ◌&&◌, if◌then◌else◌,
}
use text.Mathlib.Text.{starts_with}
use server_watch.Prometheus.{Gauges}
use server_watch.Http.{Request, Response, response_writer, http_error}
use server_watch.System.Interfaces.{Deps}
use server_watch.System.{World}
use server_watch.System.Settings.{
  get_metrics, get_history, get_alerts, get_health, update_config, get_config,
}
use server_watch.Handlers.{HttpEnv, System, HandlerFunc, new_handler}
use server_watch.Handlers.Health.{health_handler}
use server_watch.Handlers.Alerts.{alerts_handler}
use server_watch.Handlers.History.{history_handler}
use server_watch.Handlers.Metrics.{metrics_handler}
use server_watch.Handlers.Configuration.{config_handler}
use server_watch.Handlers.Middleware.{Recorder, recorder, metrics_middleware, request_id_middleware}

-- `prometheus` is `promHandler`, and the other two are those of the profiler.
pub record Mounted (F : Type 0) : Type 0 where
  pub prometheus : Request → Gauges F → Recorder Response → Recorder Response
  pub pprof_index : Request → Response → Response
  pub pprof_profile : Request → Response → Response

-- The handler of a path.
unfoldable pub find_route : {A : Type 0} → String → List (String × A) → Option A
find_route path [] = none
find_route path ((pattern, handler) ∷ routes) =
    if str_eq path pattern then some handler else find_route path routes

-- The system is what the handlers need. The clock of the process is the one that it reads.
abbrev pub system_of : {F : Type 0} → Deps F → System F
system_of d = record {
  St = World d;
  get_metrics = get_metrics d;
  get_history = get_history d;
  get_alerts = get_alerts d;
  get_health = get_health d;
  update_config = update_config d;
  get_config = get_config d;
  time_now = λ s. (d.now s.clock, record s { clock = suc s.clock });
  gauges = λ s. s.gauges;
}

module _ {F : Type 0} (env : HttpEnv F) (d : Deps F) (mounted : Mounted F) where
  -- The five routes that `MetricsMiddleware` wraps.
  abbrev pub api_routes : List (String × HandlerFunc (World d) (recorder response_writer))
  api_routes =
      let h = new_handler {rw = recorder response_writer} (system_of d) mounted.prometheus in
      ("/metrics", metrics_handler env h.system (recorder response_writer) h.prometheus_handler)
      ∷ ("/health", health_handler env h.system (recorder response_writer))
      ∷ ("/history", history_handler env h.system (recorder response_writer))
      ∷ ("/alerts", alerts_handler env h.system (recorder response_writer))
      ∷ ("/config", config_handler env h.system (recorder response_writer))
      ∷ []

  abbrev pub api_handler : String → Option (HandlerFunc (World d) (recorder response_writer))
  api_handler path = find_route path api_routes

  -- `pprof` is `cfg.PprofEnabled` at the start of the program.
  unfoldable pub other_handler : Bool → HandlerFunc (World d) response_writer
  other_handler pprof r w s =
      if pprof && str_eq r.path "/debug/pprof/profile"
      then (mounted.pprof_profile (record r { pattern = "/debug/pprof/profile" }) w, s)
      else if pprof && starts_with r.path "/debug/pprof/"
      then (mounted.pprof_index (record r { pattern = "/debug/pprof/" }) w, s)
      else (http_error response_writer "404 page not found" 404 w, s)

  unfoldable pub serve_mux : Bool → HandlerFunc (World d) response_writer
  serve_mux pprof r w s = elim (api_handler r.path) [
    | some h ↦ metrics_middleware d response_writer h (record r { pattern = r.path }) w s
    | none ↦ other_handler pprof r w s
  ]

  -- The handler of the server; `fresh` is the identifier that `uuid.New` gives for this request.
  unfoldable pub http_server : Bool → String → HandlerFunc (World d) response_writer
  http_server pprof fresh = request_id_middleware d response_writer fresh (serve_mux pprof)
