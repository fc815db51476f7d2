-- ===== src/Handlers/Configuration.antt =====
-- internal/handlers/config.go.
use server_watch.Base.{invalid_config, errors_is, Result, ok, err, if◌then◌else◌}
use server_watch.Http.{ResponseWriter, http_error, encode_json}
use server_watch.Config.{Config}
use server_watch.Handlers.{HttpEnv, System, HandlerFunc, identified, json_header}

module _ {F : Type 0} (env : HttpEnv F) (sys : System F) (rw : ResponseWriter) where
  abbrev pub answer_config : Config F → rw.W → rw.W
  answer_config cfg w =
      let (fine, w') = encode_json rw (env.encode_config cfg) (json_header rw w) in
      if fine then w' else http_error rw "не удалось закодировать ответ" 500 w'

  abbrev pub answer_update : Result (Unit {0}) → Config F → rw.W → rw.W
  answer_update (ok _) cfg w = answer_config cfg w
  answer_update (err e) cfg w =
      if errors_is e invalid_config
      then http_error rw "невалидная конфигурация" 400 w
      else http_error rw "не удалось обновить конфигурацию" 500 w

  unfoldable pub config_handler : HandlerFunc sys.St rw
  config_handler = identified rw λ r w s. elim (env.decode_update r.body) [
    | err e ↦ (http_error rw "некорректный JSON" 400 w, s)
    | ok update ↦
        let (result, s') = sys.update_config update s in
        (answer_update result (sys.get_config s') w, s')
  ]
