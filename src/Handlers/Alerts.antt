-- ===== src/Handlers/Alerts.antt =====
-- internal/handlers/alerts.go.
use server_watch.Base.{
  Bool, true, false, Option, none, some, List, map, String, str_eq, Result, ok, err, if◌then◌else◌,
}
use server_watch.Model.{Alert}
use server_watch.Http.{ResponseWriter, http_error}
use server_watch.Handlers.{
  AlertResponse, HttpEnv, System, HandlerFunc, identified, json_header, send_json,
}

abbrev pub parse_active_only : String → Option Bool
parse_active_only text =
    let text' = if str_eq text "" then "false" else text in
    if str_eq text' "true" then some true else if str_eq text' "false" then some false else none

abbrev pub alert_response : {F : Type 0} → Alert F → AlertResponse F
alert_response a = record {
  id = a.id;
  kind = a.kind;
  timestamp = a.timestamp;
  threshold = a.threshold;
  resolved = a.resolved;
  resolved_at = a.resolved_at;
  value = a.value;
}

module _ {F : Type 0} (env : HttpEnv F) (sys : System F) (rw : ResponseWriter) where
  abbrev pub answer_alerts : Result (List (Alert F)) → rw.W → rw.W
  answer_alerts (err e) w = http_error rw "ошибка получения списка алертов" 500 w
  answer_alerts (ok alerts) w =
      send_json rw (env.encode_alerts (map alert_response alerts)) (json_header rw w)

  unfoldable pub alerts_handler : HandlerFunc sys.St rw
  alerts_handler = identified rw λ r w s. elim (parse_active_only (r.query "active_only")) [
    | none ↦ (http_error rw "некорректное значение параметра active_only" 400 w, s)
    | some active_only ↦
        let (alerts, s') = sys.get_alerts active_only s in (answer_alerts alerts w, s')
  ]
