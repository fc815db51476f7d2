-- ===== src/Handlers.antt =====
-- internal/handlers: what the handlers share. JSON, RFC 3339, MIME types and the printing of an error
-- are the parameter `env`. A handler changes the response and the system.
pub mod Health
pub mod Alerts
pub mod History
pub mod Metrics
pub mod Configuration
pub mod Middleware
pub mod Negotiation
use server_watch.Base.{
  ℕ, Bool, Option, none, some, List, String, Error, Result, Action, if◌then◌else◌,
}
use server_watch.Base.Int.{ℤ}
use server_watch.Model
use server_watch.Model.{Time, AlertType, Alert}
use server_watch.Http.{Request, ResponseWriter, http_error, encode_json}
use server_watch.Prometheus.{Gauges}
use server_watch.Config.{Config}
use server_watch.System.Settings.{ConfigUpdate}

pub record AlertResponse (F : Type 0) : Type 0 where
  pub id : ℕ
  pub kind : AlertType
  pub timestamp : Time
  pub threshold : F
  pub resolved : Bool
  pub resolved_at : Option Time
  pub value : F

pub record MetricsResponse (F : Type 0) : Type 0 where
  pub cpu_percent : F
  pub mem_percent : F
  pub mem_used_mb : F
  pub mem_total_mb : F
  pub disk_percent : F
  pub disk_used_gb : F
  pub disk_total_gb : F

-- The empty text stands for a field that `omitempty` leaves out.
pub record HealthResponse : Type 0 where
  pub status : String
  pub error : String
  pub last_collection : String

-- `encode_alerts` and `encode_history` are the encoders of `AlertsResponse` and `HistoryResponse`,
-- which hold one list.
pub record HttpEnv (F : Type 0) : Type 0 where
  pub encode_alerts : List (AlertResponse F) → Result String
  pub encode_history : List (MetricsResponse F) → Result String
  pub encode_metrics : MetricsResponse F → Result String
  pub encode_health : HealthResponse → Result String
  pub encode_config : Config F → Result String
  pub decode_update : String → Result (ConfigUpdate F)
  pub format_rfc3339 : Time → String
  pub parse_rfc3339 : String → Result Time
  pub split_commas : String → List String
  pub parse_media_type : String → Result (String × (String → String))
  pub show_error : Error → String

-- The interface `System`. The handlers also read the clock and, in the handler of Prometheus, the
-- gauges of the process, `time_now` and `gauges`.
pub record System (F : Type 0) : Type 1 where
  pub St : Type 0
  pub get_metrics : St → Model.Metrics F × St
  pub get_history : Time → Time → Action St (List (Model.Metrics F))
  pub get_alerts : Bool → Action St (List (Alert F))
  pub get_health : St → Time × Option Error
  pub update_config : ConfigUpdate F → Action St (Unit {0})
  pub get_config : St → Config F
  pub time_now : St → Time × St
  pub gauges : St → Gauges F

-- `http.HandlerFunc`, over the state of the process.
abbrev pub HandlerFunc : Type 0 → ResponseWriter → Type 0
HandlerFunc S rw = Request → rw.W → S → rw.W × S

pub record Handler (F : Type 0) (rw : ResponseWriter) : Type 1 where
  pub system : System F
  pub prometheus_handler : Request → Gauges F → rw.W → rw.W

abbrev pub new_handler :
    {F : Type 0}
    → {rw : ResponseWriter} → System F
    → (Request → Gauges F → rw.W → rw.W)
    → Handler F rw
new_handler sys prom_handler = record { system = sys; prometheus_handler = prom_handler }

module _ (rw : ResponseWriter) where
  -- The head of every handler: no request is served without its id.
  abbrev pub identified : {S : Type 0} → HandlerFunc S rw → HandlerFunc S rw
  identified next r w s = elim r.request_id [
    | none ↦ (http_error rw "request_id отсутствует в context" 500 w, s)
    | some id ↦ next r w s
  ]

  abbrev pub json_header : rw.W → rw.W
  json_header = rw.set_header "Content-Type" "application/json"

  -- An answer whose failure is reported by the status 500.
  abbrev pub send_json : Result String → rw.W → rw.W
  send_json text w =
      let (fine, w') = encode_json rw text w in if fine then w' else rw.write_header 500 w'
