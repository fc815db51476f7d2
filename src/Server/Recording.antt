-- ===== src/Server/Recording.antt =====
-- The status that `MetricsMiddleware` records and the status of the response.
use server_watch.Base.{
  ℕ, ◌-◌, suc, ap, ap₂, ◌≡◌, refl, Bool, false, none, some, ◌∷◌, String, Result, ok, err, arith,
}
use server_watch.Prometheus.{Gauges}
use server_watch.Http.{Request, fresh_response, response_writer, http_error, status_of}
use server_watch.System.Interfaces.{Deps}
use server_watch.System.{World}
use server_watch.Handlers.{HttpEnv, HandlerFunc, send_json}
use server_watch.Handlers.Health.{health_handler}
use server_watch.Handlers.Alerts.{alerts_handler}
use server_watch.Handlers.History.{history_handler}
use server_watch.Handlers.Metrics.{metrics_handler}
use server_watch.Handlers.Configuration.{config_handler}
use server_watch.Handlers.Middleware.{recorder, metrics_middleware}
use server_watch.Server.{system_of, Mounted, api_routes, api_handler, http_server}
use server_watch.Server.Effects.{api_handler-KeepsAll}
use server_watch.Server.Routes.{
  Recording, served_request, served_response, find_route-AllRoutes, http_server-routed,
}

-- Nothing is sent yet, on a connection that works.
pub record IsUnsent (w : Recording) : Type 0 where
  pub sent : w.inner.sent ≡ none
  pub status : w.status ≡ 200
  pub broken : w.inner.broken ≡ false

abbrev pub Agrees : Recording → Type 0
Agrees w = w.status ≡ status_of w.inner

set_header-IsUnsent :
    (k v : String) (w : Recording)
    → IsUnsent w
    → IsUnsent ((recorder response_writer).set_header k v w)
set_header-IsUnsent k v w u = ground arith

http_error-Agrees :
    (text : String) (code : ℕ) (w : Recording)
    → IsUnsent w
    → Agrees (http_error (recorder response_writer) text code w)
http_error-Agrees text code w u = ground arith

module _ {F : Type 0} (env : HttpEnv F) (d : Deps F) (mounted : Mounted F) where
  send_json-Agrees :
      (t : Result String) (w : Recording)
      → IsUnsent w
      → Agrees (send_json (recorder response_writer) t w)
  send_json-Agrees (ok text) w u = ground arith
  send_json-Agrees (err e) w u = ground arith

  -- From an unsent response, the handler ends with the status recorded that is sent.
  abbrev pub IsOrderly : HandlerFunc (World d) (recorder response_writer) → Type 0
  IsOrderly h = (r : Request) (w : Recording) (s : World d) → IsUnsent w → Agrees (h r w s).0

  alerts_handler-IsOrderly : IsOrderly (alerts_handler env (system_of d) (recorder response_writer))
  unfolding alerts_handler
  alerts_handler-IsOrderly r w s u = ground arith

  history_handler-IsOrderly :
      IsOrderly (history_handler env (system_of d) (recorder response_writer))
  unfolding history_handler
  history_handler-IsOrderly r w s u = ground arith

  config_handler-IsOrderly : IsOrderly (config_handler env (system_of d) (recorder response_writer))
  unfolding config_handler
  config_handler-IsOrderly r w s u = ground arith

  health_handler-IsOrderly : IsOrderly (health_handler env (system_of d) (recorder response_writer))
  unfolding health_handler
  health_handler-IsOrderly r w s u = ground arith

  metrics_handler-IsOrderly :
      ((r : Request) (g : Gauges F) (w : Recording)
        → IsUnsent w
        → Agrees (mounted.prometheus r g w))
      → IsOrderly (metrics_handler env (system_of d) (recorder response_writer) mounted.prometheus)
  unfolding metrics_handler
  metrics_handler-IsOrderly p r w s u = ground (arith, p r s.gauges w u)

  module _
      (tidy : (r : Request) (g : Gauges F) (w : Recording)
        → IsUnsent w
        → Agrees (mounted.prometheus r g w)) where
    api_handler-IsOrderly :
        (path : String) (h : HandlerFunc (World d) (recorder response_writer))
        → api_handler env d mounted path ≡ some h
        → IsOrderly h
    api_handler-IsOrderly path h =
        find_route-AllRoutes IsOrderly path (api_routes env d mounted) h (
          metrics_handler-IsOrderly tidy,
          (
            health_handler-IsOrderly,
            (history_handler-IsOrderly, (alerts_handler-IsOrderly, (config_handler-IsOrderly, tt))),
          ),
        )

    metrics_middleware-records :
        (fresh : String) (r : Request) (s : World d)
        {h : HandlerFunc (World d) (recorder response_writer)}
        → api_handler env d mounted r.path ≡ some h
        → let (response, s') =
            metrics_middleware d response_writer h
              (served_request fresh r)
              (served_response fresh r (fresh_response false)).inner
              s in
          (duration : ℕ) × (s'.gauges.http_latency
            ≡ record {
              path = r.path;
              method = r.method;
              status = status_of response;
              duration = duration;
            }
              ∷ s.gauges.http_latency)
    unfolding metrics_middleware
    metrics_middleware-records fresh r s {h} route =
        let r' = served_request fresh r in
        let w = served_response fresh r (fresh_response false) in
        let s' : World d = record s { clock = suc s.clock } in
        let agreed =
          api_handler-IsOrderly r.path h route r' w s'
            (record { sent = refl; status = refl; broken = refl }) in
        let kept = (api_handler-KeepsAll env d mounted r.path h route r' w s').leaves.gauges in
        let duration = d.now (h r' w s').1.clock - d.now s.clock in
        (
          duration,
          ap₂
              (λ status before.
                record { path = r.path; method = r.method; status = status; duration = duration }
                ∷ before)
              agreed (ap (λ g. g.http_latency) kept),
        )

    -- If the Prometheus handler records the status that it sends, a request to one of the five
    -- wrapped paths on a connection that works adds exactly one observation to the latencies: the
    -- path of the route, the method of the request, and the status of the response that was sent.
    pub http_server-records :
        (pprof : Bool) (fresh : String) (r : Request) (s : World d)
        {h : HandlerFunc (World d) (recorder response_writer)}
        → api_handler env d mounted r.path ≡ some h
        → let (response, s') = http_server env d mounted pprof fresh r (fresh_response false) s in
          (duration : ℕ) × (s'.gauges.http_latency
            ≡ record {
              path = r.path;
              method = r.method;
              status = status_of response;
              duration = duration;
            }
              ∷ s.gauges.http_latency)
    http_server-records pprof fresh r s route =
        rw (http_server-routed env d mounted pprof fresh r (fresh_response false) s route)
          (metrics_middleware-records fresh r s route)
