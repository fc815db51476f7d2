-- ===== src/Notifications/Sender.antt =====
-- internal/notifications/http-sender.go. JSON encoding, the formatting verbs, `net/http` and the
-- wait in a `select` are the parameter `env`.
pub mod Steps
pub mod Attempts
pub mod Rounds
use server_watch.Base.{
  ℕ, zero, suc, ◌+◌, ◌*◌, ◌^◌, ◌==◌, ltb, leb, Bool, ◌&&◌, ◌||◌, String, str_eq, Error, message,
  wrap, Result, ok, err, Action, pure, raise, if◌then◌else◌,
}
use Prim.Native.String.{◌++◌}
use server_watch.Model.{Time, second, Notification, action_created}

-- `do_request` gives the status code. `wait` is `select` on a timer and the context: `ok` when the
-- time is over, `ctx.Err()` when the context is done.
pub record SenderEnv (F : Type 0) : Type 1 where
  pub St : Type 0
  pub format_float : F → String
  pub format_time : Time → String
  pub marshal : String → Result String
  pub Request : Type 0
  pub new_request : String → String → Result Request
  pub do_request : Request → Action St ℕ
  pub wait : Time → Action St (Unit {0})

abbrev pub is_retryable_status : ℕ → Bool
is_retryable_status code = code == 429 || (leb 500 code && ltb code 600)

abbrev pub is_success : ℕ → Bool
is_success code = leb 200 code && ltb code 300

-- `time.Duration(1<<attempt) * time.Second`
abbrev pub retry_delay : ℕ → Time
retry_delay attempt = 2 ^ attempt * second

module _ {F : Type 0} (env : SenderEnv F) where
  unfoldable pub format_notification : Notification F → String
  format_notification n =
      if str_eq n.action action_created
      then "🚨ALERT: "
        ++ n.kind
        ++ " | Value: "
        ++ env.format_float n.value
        ++ "% | Threshold: "
        ++ env.format_float n.threshold
        ++ "% | Time: "
        ++ env.format_time n.timestamp
      else "✅RESOLVED: "
        ++ n.kind
        ++ " | Value: "
        ++ env.format_float n.value
        ++ "% | Threshold: "
        ++ env.format_float n.threshold
        ++ "%| Time: "
        ++ env.format_time n.timestamp

  -- The last attempt does not wait.
  abbrev pub retry : ℕ → Error → Action env.St (Unit {0}) → Action env.St (Unit {0})
  retry attempt e next s =
      if attempt == 2
      then (err e, s)
      else (let (r, s') = env.wait (retry_delay attempt) s in
          elim r [ ok _ ↦ next s' | err cancelled ↦ (err cancelled, s') ])

  -- One round of the loop, once the request was answered or failed.
  abbrev pub after_request : ℕ → Result ℕ → Action env.St (Unit {0}) → Action env.St (Unit {0})
  after_request attempt (err e) next s = retry attempt (wrap "ошибка запроса" e) next s
  after_request attempt (ok code) next s =
      if is_success code
      then (ok tt, s)
      else if is_retryable_status code
      then retry attempt (message "ошибка запроса") next s
      else if leb 400 code && ltb code 500
      then (err (message "сервис для уведомлений вернул HTTP статус"), s)
      else (err (message "неожиданный HTTP статус"), s)

  -- `for attempt := range 3`, with the rounds left.
  unfoldable pub send_from : ℕ → ℕ → String → String → Action env.St (Unit {0})
  send_from zero attempt url body s = raise (message "неожиданное поведение функции Send") s
  send_from (suc left) attempt url body s =
      let next = send_from left (suc attempt) url body in
      elim (env.new_request url body) [
        | err e ↦ (err (wrap "ошибка создания запроса" e), s)
        | ok request ↦ let (r, s') = env.do_request request s in after_request attempt r next s'
      ]

  unfoldable pub send : String → Notification F → Action env.St (Unit {0})
  unfolding send_from format_notification
  send url n s = elim (env.marshal (format_notification n)) [
    | err e ↦ (err (wrap "ошибка сериализации уведомления" e), s)
    | ok body ↦ send_from 3 0 url body s
  ]
