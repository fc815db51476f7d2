-- ===== src/Handlers/Middleware.antt =====
-- internal/handlers/request-id.go and benchmark-metrics.go. The identifier that `uuid.New` would give
-- for a request is an argument.
use server_watch.Base.{ℕ, suc, ◌-◌, some, String, str_eq, if◌then◌else◌}
use server_watch.Prometheus.{Observation, observe_latency}
use server_watch.Http.{Request, ResponseWriter}
use server_watch.System.Interfaces.{Deps}
use server_watch.System.{World}
use server_watch.Handlers.{HandlerFunc}

-- `responseWriter`: it passes every call on, and keeps the status of the last `WriteHeader`.
pub record Recorder (W : Type 0) : Type 0 where
  pub inner : W
  pub status : ℕ

abbrev pub recorder : ResponseWriter → ResponseWriter
recorder rw = record {
  W = Recorder rw.W;
  set_header = λ k v w. record w { inner = rw.set_header k v w.inner };
  write_header = λ code w. record { inner = rw.write_header code w.inner; status = code };
  write = λ text w. let (fine, inner) = rw.write text w.inner in (fine, record w { inner = inner });
}

-- The identifier of a request: the one it brings, or a new one.
abbrev pub id_of : String → Request → String
id_of fresh r = let given = r.header "X-Request-ID" in if str_eq given "" then fresh else given

module _ {F : Type 0} (d : Deps F) (rw : ResponseWriter) where
  unfoldable pub request_id_middleware :
      String → HandlerFunc (World d) rw → HandlerFunc (World d) rw
  request_id_middleware fresh next r w s =
      let id = id_of fresh r in
      next (record r { request_id = some id }) (rw.set_header "X-Request-ID" id w) s

  -- The duration is in nanoseconds.
  unfoldable pub metrics_middleware : HandlerFunc (World d) (recorder rw) → HandlerFunc (World d) rw
  metrics_middleware next r w s =
      let start = d.now s.clock in
      let (done, s') =
        next r (record { inner = w; status = 200 }) (record s { clock = suc s.clock }) in
      let observation : Observation = record {
        path = r.pattern;
        method = r.method;
        status = done.status;
        duration = d.now s'.clock - start;
      } in
      (
        done.inner,
        record s' { clock = suc s'.clock; gauges = observe_latency observation s'.gauges },
      )
