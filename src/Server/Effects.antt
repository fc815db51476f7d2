-- ===== src/Server/Effects.antt =====
-- What a request changes in the system.
use server_watch.Base.{
  suc, ap, subst, sym, ◌≡◌, refl, Bool, none, some, arith, inl, inr, Option-cases, Result-cases,
  String,
}
use server_watch.Prometheus.{Gauges}
use server_watch.Http.{Request, Response, ResponseWriter, response_writer}
use server_watch.Config.Validation.{IsValid}
use server_watch.System.Interfaces.{Deps}
use server_watch.System.{World}
use server_watch.System.Settings.{update_config, get_config, get_alerts, get_history, get_metrics}
use server_watch.System.Settings.Update.{update_config-IsValid}
use server_watch.Handlers.{HttpEnv, HandlerFunc}
use server_watch.Handlers.Health.{health_handler}
use server_watch.Handlers.Alerts.{alerts_handler}
use server_watch.Handlers.History.{history_handler}
use server_watch.Handlers.Metrics.{metrics_handler}
use server_watch.Handlers.Configuration.{config_handler}
use server_watch.Handlers.Middleware.{Recorder, recorder, metrics_middleware, request_id_middleware}
use server_watch.Server.{
  system_of, Mounted, api_routes, api_handler, serve_mux, http_server, other_handler,
}
use server_watch.Server.Routes.{find_route-AllRoutes, http_server-routed}

module _ {F : Type 0} (env : HttpEnv F) (d : Deps F) (out : ResponseWriter) where
  -- What the collector goes by is as before.
  pub record Leaves (s s' : World d) : Type 0 where
    pub metrics : s'.metrics ≡ s.metrics
    pub last_success : s'.last_success ≡ s.last_success
    pub last_error : s'.last_error ≡ s.last_error
    pub alerts : s'.alerts ≡ s.alerts
    pub queue : s'.queue ≡ s.queue
    pub gauges : s'.gauges ≡ s.gauges
    pub config_path : s'.config_path ≡ s.config_path

  -- So are the configuration and its file.
  pub record Queries (s s' : World d) : Type 0 where
    pub leaves : Leaves s s'
    pub config : s'.config ≡ s.config
    pub files : s'.files ≡ s.files

  module _ (r : Request) (w : out.W) (s : World d) where
    pub health_handler-Queries : Queries s (health_handler env (system_of d) out r w s).1
    unfolding health_handler
    health_handler-Queries = ground arith

    pub alerts_handler-Queries : Queries s (alerts_handler env (system_of d) out r w s).1
    unfolding alerts_handler get_alerts
    alerts_handler-Queries = ground arith

    pub history_handler-Queries : Queries s (history_handler env (system_of d) out r w s).1
    unfolding history_handler get_history
    history_handler-Queries = ground arith

    pub metrics_handler-Queries :
        (prometheus : Request → Gauges F → out.W → out.W)
        → Queries s (metrics_handler env (system_of d) out prometheus r w s).1
    unfolding metrics_handler get_metrics
    metrics_handler-Queries prometheus = ground arith

    pub config_handler-Leaves : Leaves s (config_handler env (system_of d) out r w s).1
    unfolding config_handler update_config
    config_handler-Leaves = ground arith

    pub config_handler-IsValid :
        IsValid d.floats d.env s.config
        → IsValid d.floats d.env (config_handler env (system_of d) out r w s).1.config
    unfolding config_handler get_config
    config_handler-IsValid good = elim (Result-cases (env.decode_update r.body)) [
      | inl (update, decoded) ↦ ground (arith, decoded, update_config-IsValid d update s good)
      | inr (e, garbled) ↦ ground (arith, garbled, good)
    ]

  -- What holds of every handler.
  pub record Keeps (s s' : World d) : Type 0 where
    pub leaves : Leaves s s'
    pub valid : IsValid d.floats d.env s.config → IsValid d.floats d.env s'.config

  pub Queries-Keeps : (s s' : World d) → Queries s s' → Keeps s s'
  Queries-Keeps s s' q = record {
    leaves = q.leaves;
    valid = subst (IsValid d.floats d.env) (sym q.config);
  }

module _ {F : Type 0} (env : HttpEnv F) (d : Deps F) (mounted : Mounted F) where
  abbrev pub KeepsAll : HandlerFunc (World d) (recorder response_writer) → Type 0
  KeepsAll h =
      (r : Request) (w : Recorder Response) (s : World d)
      → Keeps env d (recorder response_writer) s (h r w s).1

  pub api_handler-KeepsAll :
      (path : String) (h : HandlerFunc (World d) (recorder response_writer))
      → api_handler env d mounted path ≡ some h
      → KeepsAll h
  api_handler-KeepsAll path h =
      let out = recorder response_writer in
      find_route-AllRoutes KeepsAll path (api_routes env d mounted) h (
        λ r w s.
            Queries-Keeps env d out _ _
              (metrics_handler-Queries env d out r w s mounted.prometheus),
        (
          λ r w s. Queries-Keeps env d out _ _ (health_handler-Queries env d out r w s),
          (
            λ r w s. Queries-Keeps env d out _ _ (history_handler-Queries env d out r w s),
            (
              λ r w s. Queries-Keeps env d out _ _ (alerts_handler-Queries env d out r w s),
              (
                λ r w s. record {
                  leaves = config_handler-Leaves env d out r w s;
                  valid = config_handler-IsValid env d out r w s;
                },
                tt,
              ),
            ),
          ),
        ),
      )

  -- What no request changes: what the collector goes by, and all gauges but the latencies.
  pub record IsServed (s s' : World d) : Type 0 where
    pub metrics : s'.metrics ≡ s.metrics
    pub last_success : s'.last_success ≡ s.last_success
    pub last_error : s'.last_error ≡ s.last_error
    pub alerts : s'.alerts ≡ s.alerts
    pub queue : s'.queue ≡ s.queue
    pub gauges : record s'.gauges { http_latency = s.gauges.http_latency } ≡ s.gauges
    pub valid : IsValid d.floats d.env s.config → IsValid d.floats d.env s'.config

  metrics_middleware-IsServed :
      (h : HandlerFunc (World d) (recorder response_writer)) (r : Request) (w : Response)
      (s : World d)
      → KeepsAll h
      → IsServed s (metrics_middleware d response_writer h r w s).1
  unfolding metrics_middleware
  metrics_middleware-IsServed h r w s keeps =
      let kept = keeps r (record { inner = w; status = 200 }) (record s { clock = suc s.clock }) in
      record {
        metrics = kept.leaves.metrics;
        last_success = kept.leaves.last_success;
        last_error = kept.leaves.last_error;
        alerts = kept.leaves.alerts;
        queue = kept.leaves.queue;
        gauges =
            ap {A = Gauges F} (λ g. record g { http_latency = s.gauges.http_latency })
              kept.leaves.gauges;
        valid = kept.valid;
      }

  http_server-other :
      (pprof : Bool) (fresh : String) (r : Request) (w : Response) (s : World d)
      → api_handler env d mounted r.path ≡ none
      → (http_server env d mounted pprof fresh r w s).1 ≡ s
  unfolding http_server serve_mux request_id_middleware other_handler
  http_server-other pprof fresh r w s route = ground (arith, route)

  pub http_server-IsServed :
      (pprof : Bool) (fresh : String) (r : Request) (w : Response) (s : World d)
      → IsServed s (http_server env d mounted pprof fresh r w s).1
  http_server-IsServed pprof fresh r w s = elim (Option-cases (api_handler env d mounted r.path)) [
    | inl elsewhere ↦
        subst (IsServed s) (sym (http_server-other pprof fresh r w s elsewhere)) unchanged
    | inr (h, route) ↦
        rw (http_server-routed env d mounted pprof fresh r w s route)
          (metrics_middleware-IsServed h _ _ s (api_handler-KeepsAll r.path h route))
  ]
    where
      unchanged : IsServed s s
      unchanged = record {
        metrics = refl;
        last_success = refl;
        last_error = refl;
        alerts = refl;
        queue = refl;
        gauges = refl;
        valid = λ v. v;
      }
