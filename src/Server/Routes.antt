-- ===== src/Server/Routes.antt =====
-- What holds of every route, and how a request to one is served.
use mathlib.Core.Option.{some-injective}
use server_watch.Base.{
  ◌≡◌, arith, Bool, some, List, [], ◌∷◌, String, str_eq, Bool-cases, inl, inr, subst,
}
use server_watch.Http.{Request, Response, response_writer}
use server_watch.System.Interfaces.{Deps}
use server_watch.System.{World}
use server_watch.Handlers.{HttpEnv, HandlerFunc}
use server_watch.Handlers.Middleware.{
  Recorder, recorder, id_of, metrics_middleware, request_id_middleware,
}
use server_watch.Server.{Mounted, find_route, api_handler, serve_mux, http_server}

abbrev pub AllRoutes : {A : Type 0} → (A → Type 0) → List (String × A) → Type 0
AllRoutes P [] = Unit {0}
AllRoutes P ((pattern, handler) ∷ routes) = P handler × AllRoutes P routes

pub find_route-AllRoutes :
    {A : Type 0} (P : A → Type 0) (path : String) (routes : List (String × A)) (h : A)
    → AllRoutes P routes
    → find_route path routes ≡ some h
    → P h
unfolding find_route
find_route-AllRoutes P path [] h all e = cc
find_route-AllRoutes P path ((pattern, handler) ∷ routes) h all e =
    elim (Bool-cases (str_eq path pattern)) [
      | inl here ↦ subst P (some-injective handler h (rw here at e)) all.0
      | inr later ↦ find_route-AllRoutes P path routes h all.1 (rw later at e)
    ]

-- The response with the status that the middleware records for it.
abbrev pub Recording : Type 0
Recording = Recorder Response

-- A handler runs with the id of its request and the pattern of its route, on a recorder.
abbrev pub served_request : String → Request → Request
served_request fresh r = record r { request_id = some (id_of fresh r); pattern = r.path }

abbrev pub served_response : String → Request → Response → Recording
served_response fresh r w = record {
  inner = response_writer.set_header "X-Request-ID" (id_of fresh r) w;
  status = 200;
}

module _ {F : Type 0} (env : HttpEnv F) (d : Deps F) (mounted : Mounted F) where
  pub http_server-routed :
      (pprof : Bool) (fresh : String) (r : Request) (w : Response) (s : World d)
      {h : HandlerFunc (World d) (recorder response_writer)}
      → api_handler env d mounted r.path ≡ some h
      → http_server env d mounted pprof fresh r w s
        ≡ metrics_middleware d response_writer h
            (served_request fresh r)
            (response_writer.set_header "X-Request-ID" (id_of fresh r) w)
            s
  unfolding http_server serve_mux request_id_middleware
  http_server-routed pprof fresh r w s route = ground (arith, route)
