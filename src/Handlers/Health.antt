-- ===== src/Handlers/Health.antt =====
-- internal/handlers/health.go.
use server_watch.Base.{◌-◌, ◌*◌, ◌==◌, ltb, Bool, Option, none, some, String, Error, if◌then◌else◌}
use Prim.Native.String.{◌++◌}
use server_watch.Model.{Time, second}
use server_watch.Http.{ResponseWriter, encode_json}
use server_watch.Handlers.{HttpEnv, System, HandlerFunc, identified, json_header}

module _ {F : Type 0} (env : HttpEnv F) (sys : System F) (rw : ResponseWriter) where
  abbrev pub unhealthy : String → rw.W → rw.W
  unhealthy text w =
      (encode_json rw
        (env.encode_health (record { status = "unhealthy"; error = text; last_collection = "" }))
        (rw.write_header 503 w)).1

  abbrev pub healthy : Time → rw.W → rw.W
  healthy last w =
      (encode_json rw
        (env.encode_health
          (record { status = "ok"; error = ""; last_collection = env.format_rfc3339 last }))
        w).1

  -- `time.Since(lastSuccess) > time.Second*10` at the time `now`.
  abbrev pub is_stale : Time → Time → Bool
  is_stale now last = ltb (10 * second) (now - last)

  abbrev pub report_age : Time → rw.W → sys.St → rw.W × sys.St
  report_age last w s =
      let (now, s') = sys.time_now s in
      if is_stale now last
      then (unhealthy "последнее обновление данных случилось дольше 10 секунд назад" w, s')
      else (healthy last w, s')

  -- The clock is read only where the test of the age is reached.
  abbrev pub report_health : Time × Option Error → rw.W → sys.St → rw.W × sys.St
  report_health (last, error) w s =
      if last == 0 then (unhealthy "ещё нет успешных чтений метрик" w, s) else elim error [
        | some e ↦ (unhealthy ("ошибка при чтении метрик: " ++ env.show_error e) w, s)
        | none ↦ report_age last w s
      ]

  unfoldable pub health_handler : HandlerFunc sys.St rw
  health_handler = identified rw λ r w s. report_health (sys.get_health s) (json_header rw w) s
