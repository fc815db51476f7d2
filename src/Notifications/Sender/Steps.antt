-- ===== src/Notifications/Sender/Steps.antt =====
-- One round of the loop of `Send`, by the answer.
use server_watch.Base.{
  ℕ, suc, ◌≡◌, Bool, true, false, String, Error, Result, ok, err, arith, if◌then◌else◌, leb, ltb,
  message, wrap, ◌&&◌, ◌≢◌,
}
use server_watch.Notifications.Sender.{
  SenderEnv, is_success, is_retryable_status, retry_delay, send_from,
}

-- A failure for the time being: no answer, 429 or a server error.
abbrev pub is_transient : Result ℕ → Bool
is_transient (err e) = true
is_transient (ok code) = is_retryable_status code

-- The result of a delivery that an answer settles.
abbrev pub settled : Result ℕ → Result (Unit {0})
settled (err e) = err e
settled (ok code) =
    if is_success code
    then ok tt
    else if leb 400 code && ltb code 500
    then err (message "сервис для уведомлений вернул HTTP статус")
    else err (message "неожиданный HTTP статус")

abbrev pub failure : Result ℕ → Error
failure (err e) = wrap "ошибка запроса" e
failure (ok code) = message "ошибка запроса"

module _ {F : Type 0} (env : SenderEnv F) (url body : String) (left attempt : ℕ) (q : env.Request)
    (s : env.St) (made : env.new_request url body ≡ ok q) where
  pub step_settled :
      is_transient (env.do_request q s).0 ≡ false
      → send_from env (suc left) attempt url body s
        ≡ (settled (env.do_request q s).0, (env.do_request q s).1)
  unfolding send_from
  step_settled final = ground arith

  pub step_last :
      is_transient (env.do_request q s).0 ≡ true
      → attempt ≡ 2
      → send_from env (suc left) attempt url body s
        ≡ (err (failure (env.do_request q s).0), (env.do_request q s).1)
  unfolding send_from
  step_last again last = ground arith

  pub step_again :
      is_transient (env.do_request q s).0 ≡ true
      → attempt ≢ 2
      → (env.wait (retry_delay attempt) (env.do_request q s).1).0 ≡ ok tt
      → send_from env (suc left) attempt url body s
        ≡ send_from env left
            (suc attempt)
            url
            body
            (env.wait (retry_delay attempt) (env.do_request q s).1).1
  unfolding send_from
  step_again again more elapsed = ground arith

  pub step_cancelled :
      {e : Error}
      → is_transient (env.do_request q s).0 ≡ true
      → attempt ≢ 2
      → (env.wait (retry_delay attempt) (env.do_request q s).1).0 ≡ err e
      → send_from env (suc left) attempt url body s
        ≡ (err e, (env.wait (retry_delay attempt) (env.do_request q s).1).1)
  unfolding send_from
  step_cancelled again more cancelled = ground arith
