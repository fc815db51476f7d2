-- ===== src/Server/Verdicts.antt =====
-- When `/health` reports the service healthy.
use server_watch.Base.{
  ◌⊎◌, ap, ◌∙◌, ◌≡◌, ◌≢◌, refl, suc, ◌-◌, ◌*◌, ◌≤◌, ◌==◌, Bool, Error, Option, none, some, String,
  arith, Bool-cases, inl, inr,
}
use server_watch.Model.{Time, second}
use server_watch.Http.{Request, fresh_response, response_writer, status_of}
use server_watch.System.Interfaces.{Deps}
use server_watch.System.{World}
use server_watch.Handlers.{HttpEnv}
use server_watch.System.Settings.{get_health}
use server_watch.Handlers.Health.{health_handler, is_stale}
use server_watch.Handlers.Middleware.{recorder, metrics_middleware}
use server_watch.Server.{system_of, Mounted, http_server, api_handler, find_route}
use server_watch.Server.Routes.{Recording, served_request, served_response, http_server-routed}

-- At the time `now`, the last success is at most ten seconds old, and no error came since.
pub record IsFresh (now last : Time) (error : Option Error) : Type 0 where
  pub succeeded : last ≢ 0
  pub calm : error ≡ none
  pub recent : now - last ≤ 10 * second

module _ {F : Type 0} (env : HttpEnv F) (d : Deps F) where
  health_handler-IsFresh :
      (r : Request) (w : Recording) (s : World d) {id : String}
      → r.request_id ≡ some id
      → w.inner.sent ≡ none
      → IsFresh (d.now s.clock) s.last_success s.last_error
      → status_of (health_handler env (system_of d) (recorder response_writer) r w s).0.inner ≡ 200
  unfolding health_handler get_health
  health_handler-IsFresh r w s identified unsent fresh = ground arith

  health_handler-unavailable :
      (r : Request) (w : Recording) (s : World d) {id : String}
      → r.request_id ≡ some id
      → w.inner.sent ≡ none
      → ¬ IsFresh (d.now s.clock) s.last_success s.last_error
      → status_of (health_handler env (system_of d) (recorder response_writer) r w s).0.inner ≡ 503
  unfolding health_handler get_health
  health_handler-unavailable r w s identified unsent stale = ground arith

  IsFresh-cases :
      (now last : Time) (error : Option Error) → IsFresh now last error ⊎ (¬ IsFresh now last error)
  IsFresh-cases now last (some e) = inr (λ f. cc)
  IsFresh-cases now last none = elim (Bool-cases (last == 0)) [
    | inl never ↦ inr (λ f. f.succeeded (ground arith))
    | inr once ↦ elim (Bool-cases (is_stale env (system_of d) response_writer now last)) [
      | inl stale ↦ inr (λ f. ground (arith, f.recent, stale))
      | inr recent ↦ inl (record {
        succeeded = ground (arith, once);
        calm = refl;
        recent = ground (arith, recent);
      })
    ]
  ]

  -- A request to `/health` is answered by 200 if there was a successful measurement, no error is
  -- kept, and at the time of the test the last success is at most ten seconds ago; otherwise it is
  -- answered by 503.
  pub http_server-health :
      (mounted : Mounted F) (pprof broken : Bool) (fresh : String) (r : Request) (s : World d)
      → r.path ≡ "/health"
      → let now = d.now (suc s.clock) in
        let status =
          status_of (http_server env d mounted pprof fresh r (fresh_response broken) s).0 in
        IsFresh now s.last_success s.last_error × (status ≡ 200)
        ⊎ (¬ IsFresh now s.last_success s.last_error) × (status ≡ 503)
  unfolding metrics_middleware find_route
  http_server-health mounted pprof broken fresh r s here =
      let routed : api_handler env d mounted r.path
          ≡ some (health_handler env (system_of d) (recorder response_writer)) =
        rw here refl in
      let r' = served_request fresh r in
      let w = served_response fresh r (fresh_response broken) in
      let s' : World d = record s { clock = suc s.clock } in
      let served =
        ap (λ o. status_of o.0)
          (http_server-routed env d mounted pprof fresh r (fresh_response broken) s routed) in
      elim (IsFresh-cases (d.now (suc s.clock)) s.last_success s.last_error) [
        | inl good ↦ inl (good, served ∙ health_handler-IsFresh r' w s' refl refl good)
        | inr bad ↦ inr (bad, served ∙ health_handler-unavailable r' w s' refl refl bad)
      ]
