-- ===== src/Handlers/Metrics.antt =====
-- internal/handlers/metrics.go. The Prometheus handler is the parameter `prometheus`, which may read
-- the gauges.
use server_watch.Base.{
  Bool, true, false, ◌||◌, List, [], ◌∷◌, String, str_eq, Result, ok, err, wrap, if◌then◌else◌,
}
use server_watch.Prometheus.{Gauges}
use server_watch.Http.{Request, ResponseWriter, http_error}
use server_watch.Handlers.{HttpEnv, System, HandlerFunc, identified, json_header, send_json}
use server_watch.Handlers.History.{metrics_response}

module _ {F : Type 0} (env : HttpEnv F) where
  abbrev pub is_prometheus_type : String → Bool
  is_prometheus_type t = str_eq t "text/plain" || str_eq t "application/openmetrics-text"

  -- The loop over the parts of the header.
  unfoldable pub accepts_part : List String → Result Bool
  accepts_part [] = ok false
  accepts_part (accept ∷ rest) =
      let later = accepts_part rest in
      elim (env.parse_media_type accept) [
        | err e ↦ err (wrap "не удалось спарсить Accept" e)
        | ok (media_type, params) ↦
            if str_eq (params "q") "0"
            then later
            else if is_prometheus_type media_type
            then ok true
            else later
      ]

  unfoldable pub accepts_prometheus : Request → Result Bool
  unfolding accepts_part
  accepts_prometheus r =
      if str_eq (r.header "Accept") ""
      then ok false
      else accepts_part (env.split_commas (r.header "Accept"))

  module _ (sys : System F) (rw : ResponseWriter)
      (prometheus : Request → Gauges F → rw.W → rw.W) where
    abbrev pub metrics_json : rw.W → sys.St → rw.W × sys.St
    metrics_json w s =
        let (m, s') = sys.get_metrics s in
        (send_json rw (env.encode_metrics (metrics_response m)) (json_header rw w), s')

    unfoldable pub metrics_handler : HandlerFunc sys.St rw
    metrics_handler = identified rw λ r w s. elim (accepts_prometheus r) [
      | ok true ↦ (prometheus r (sys.gauges s) w, s)
      | ok false ↦ metrics_json w s
      | err e ↦ (http_error rw "не удалось спарсить Accept" 500 w, s)
    ]
