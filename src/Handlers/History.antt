-- ===== src/Handlers/History.antt =====
-- internal/handlers/history.go.
use server_watch.Base.{ℕ, ◌-◌, ◌*◌, ltb, List, map, String, str_eq, Result, ok, err, if◌then◌else◌}
use server_watch.Model.{Time, second, Metrics}
use server_watch.Http.{ResponseWriter, http_error}
use server_watch.Handlers.{
  MetricsResponse, HttpEnv, System, HandlerFunc, identified, json_header, send_json,
}

abbrev pub metrics_response : {F : Type 0} → Metrics F → MetricsResponse F
metrics_response m = record {
  cpu_percent = m.cpu_usage;
  mem_percent = m.mem_usage;
  mem_used_mb = m.mem_used_mb;
  mem_total_mb = m.mem_total_mb;
  disk_percent = m.disk_usage;
  disk_used_gb = m.disk_used;
  disk_total_gb = m.disk_total;
}

module _ {F : Type 0} (env : HttpEnv F) (sys : System F) (rw : ResponseWriter) where
  -- `if from == "" { from = time.Now()… }` with the time `offset` ago; the clock is read only then.
  abbrev pub or_time_ago : ℕ → String → sys.St → String × sys.St
  or_time_ago offset text s =
      if str_eq text ""
      then (let (now, s') = sys.time_now s in (env.format_rfc3339 (now - offset), s'))
      else (text, s)

  abbrev pub answer_history : Result (List (Metrics F)) → rw.W → rw.W
  answer_history (err e) w = http_error rw "не удалось получить историю измерения метрик" 500 w
  answer_history (ok metrics) w =
      send_json rw (env.encode_history (map metrics_response metrics)) (json_header rw w)

  abbrev pub history_between : Result Time → Result Time → rw.W → sys.St → rw.W × sys.St
  history_between (err e) to w s = (http_error rw "некорректное значение параметра from" 400 w, s)
  history_between (ok from) (err e) w s =
      (http_error rw "некорректное значение параметра to" 400 w, s)
  history_between (ok from) (ok to) w s =
      if ltb to from
      then (http_error rw "параметр from не может быть позже параметра to" 400 w, s)
      else (let (metrics, s') = sys.get_history from to s in (answer_history metrics w, s'))

  unfoldable pub history_handler : HandlerFunc sys.St rw
  history_handler = identified rw λ r w s.
      let (from, s1) = or_time_ago (3600 * second) (r.query "from") s in
      let (to, s2) = or_time_ago 0 (r.query "to") s1 in
      history_between (env.parse_rfc3339 from) (env.parse_rfc3339 to) w s2
