-- ===== src/Tests/Requests.antt =====
-- Requests to the server.
use server_watch.Base.{
  ◌≡◌, ◌≢◌, ◌⊎◌, ◌↔◌, refl, ℕ, ◌≤◌, ◌<◌, Bool, true, false, none, some, [], ◌∷◌, String, str_eq, ok,
  arith, if◌then◌else◌,
}
use server_watch.Http.{Request, fresh_response, status_of, response_writer}
use server_watch.Config.{Config, save_to_yaml}
use server_watch.Config.Validation.{IsValid}
use server_watch.System.{World}
use server_watch.System.Settings.{ConfigUpdate}
use server_watch.System.Settings.Update.{IsUpdated}
use server_watch.Handlers.{HttpEnv}
use server_watch.Handlers.Alerts.{alerts_handler}
use server_watch.Handlers.Configuration.{config_handler}
use server_watch.Handlers.History.{history_handler}
use server_watch.Handlers.Metrics.{accepts_prometheus}
use server_watch.Handlers.Negotiation.{Prefers, accepts_prometheus_iff}
use server_watch.Server.{system_of, Mounted, find_route, http_server}
use server_watch.Server.Recording.{http_server-records}
use server_watch.Server.Verdicts.{IsFresh, http_server-health}
use server_watch.Server.Replies.{IsReply, Asks, IsUnreadable, AnswersAlerts, alerts_handler_replies}
use server_watch.Server.Updates.{update_reply, config_handler_replies}
use server_watch.Server.Bounds.{AnswersHistory, history_handler_replies}
use server_watch.Tests.Stores.{Number}
use server_watch.Tests.Rounds.{deps, world, env, defaults}

-- A request to be answered in the format of Prometheus.
abbrev pub get : String → Request
get path = record {
  method = "GET";
  path = path;
  pattern = path;
  header = λ name. if str_eq name "Accept" then "text/plain" else "";
  query = λ name. if str_eq name "from" then "before" else if str_eq name "to" then "after" else "";
  body = "";
  request_id = some "1";
}

abbrev pub new_threshold : ConfigUpdate Number
new_threshold = record {
  cpu_threshold = some (some 70);
  mem_threshold = none;
  trigger_count = none;
  resolve_count = none;
  slack_enabled = none;
  slack_url = none;
}

abbrev pub http_env : HttpEnv Number
http_env = record {
  encode_alerts = λ alerts. ok "alerts";
  encode_history = λ history. ok "history";
  encode_metrics = λ m. ok "metrics";
  encode_health = λ h. ok h.status;
  encode_config = λ cfg. ok "config";
  decode_update = λ text. ok new_threshold;
  format_rfc3339 = λ t. "now";
  parse_rfc3339 = λ text. if str_eq text "before" then ok 10 else ok 20;
  split_commas = λ text. text ∷ [];
  parse_media_type = λ text. ok (text, λ name. "");
  show_error = λ e. "error";
}

abbrev pub mounted : Mounted Number
mounted = record { prometheus = λ r g w. w; pprof_index = λ r w. w; pprof_profile = λ r w. w }

http_server-records_example :
    let (response, s') =
      http_server http_env deps mounted false "2" (get "/metrics") (fresh_response false) world in
    (duration : ℕ) × (s'.gauges.http_latency
      ≡ record {
        path = "/metrics";
        method = "GET";
        status = status_of response;
        duration = duration;
      }
        ∷ [])
unfolding find_route
http_server-records_example =
    http_server-records http_env deps mounted (λ r g w u. ground arith) false "2" (get "/metrics")
      world refl

abbrev served : World deps
served = record world { last_success = 95 }

http_server-health_example :
    let status =
      status_of
        (http_server http_env deps mounted false "2"
          (get "/health")
          (fresh_response false)
          served).0 in
    IsFresh 101 95 none × (status ≡ 200) ⊎ (¬ IsFresh 101 95 none) × (status ≡ 503)
http_server-health_example =
    http_server-health http_env deps mounted false false "2" (get "/health") served refl

config_handler_replies_example :
    (cfg : Config Number) × IsUpdated new_threshold defaults cfg
    × (let (w', s') =
          config_handler http_env
            (system_of deps)
            response_writer
            (get "/config")
            (fresh_response false)
            world in
        let (saved, fs) = save_to_yaml deps.floats env "config.yaml" cfg tt in
        (¬ IsValid deps.floats env cfg)
          × IsReply (400, some "невалидная конфигурация") (fresh_response false) w'
          × (s' ≡ world)
        ⊎ IsValid deps.floats env cfg
          × IsReply (update_reply saved (ok "config")) (fresh_response false) w'
          × (s' ≡ record world { config = cfg; files = fs }))
config_handler_replies_example =
    config_handler_replies http_env deps (fresh_response false)
      (record { sent = refl; broken = refl }) (get "/config") world refl new_threshold refl

alerts_handler_replies_example :
    let (w', s') =
      alerts_handler http_env
        (system_of deps)
        response_writer
        (get "/alerts")
        (fresh_response false)
        world in
    IsUnreadable ""
      × IsReply (400, some "некорректное значение параметра active_only") (fresh_response false) w'
      × (s' ≡ world)
    ⊎ (active_only : Bool) × Asks "" active_only
      × (let (alerts, repo) = deps.repository.get_alerts active_only world.repo in
          AnswersAlerts http_env alerts (fresh_response false) w'
          × (s' ≡ record world { repo = repo }))
alerts_handler_replies_example =
    alerts_handler_replies http_env deps (fresh_response false)
      (record { sent = refl; broken = refl }) (get "/alerts") world refl

history_handler_replies_example :
    let (w', s') =
      history_handler http_env
        (system_of deps)
        response_writer
        (get "/history")
        (fresh_response false)
        world in
    (20 < 10)
      × IsReply
          (400, some "параметр from не может быть позже параметра to")
          (fresh_response false)
          w'
      × (s' ≡ world)
    ⊎ (10 ≤ 20) × AnswersHistory http_env deps (fresh_response false) 10 20 world s' w'
history_handler_replies_example =
    history_handler_replies http_env deps (fresh_response false)
      (record { sent = refl; broken = refl }) (get "/history") world refl 10 20 refl refl

accepts_prometheus_iff_example :
    (accepts_prometheus http_env (get "/metrics") ≡ ok true)
    ↔ ((◌≢◌ {A = String} "text/plain" "") × Prefers http_env ("text/plain" ∷ []))
accepts_prometheus_iff_example = accepts_prometheus_iff http_env (get "/metrics")
