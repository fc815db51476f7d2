-- ===== src/Notifications/Sender/Attempts.antt =====
-- What `Send` asks of the network, and what it returns.
use server_watch.Base.{
  ℕ, zero, suc, ◌+◌, ◌≡◌, refl, inl, inr, true, List, [], ◌∷◌, String, ok, err, arith, Result-cases,
  Bool-cases, if◌then◌else◌, ◌∙◌, ◌*◌,
}
use mathlib.Core.List.{reverse, reverse_aux}
use server_watch.Model.{Time, second, Notification}
use server_watch.Notifications.Sender.{SenderEnv, retry_delay, format_notification, send_from, send}
use server_watch.Notifications.Sender.Steps.{
  is_transient, settled, failure, step_settled, step_last, step_again, step_cancelled,
}

-- An observer of the network: it keeps a list of the requests and the waits, the newest first.
pub data Call : Type 0 where
  requested : Call
  waited : Time → Call

abbrev pub observed : {F : Type 0} → SenderEnv F → SenderEnv F
observed env = record {
  St = env.St × List Call;
  format_float = env.format_float;
  format_time = env.format_time;
  marshal = env.marshal;
  Request = env.Request;
  new_request = env.new_request;
  do_request = λ q (s, log). let (r, s') = env.do_request q s in (r, (s', requested ∷ log));
  wait = λ t (s, log). let (r, s') = env.wait t s in (r, (s', waited t ∷ log));
}

abbrev pub take : ℕ → List Call → List Call
take zero calls = []
take (suc n) [] = []
take (suc n) (c ∷ calls) = c ∷ take n calls

-- The calls of a delivery that fails for the time being at every attempt.
abbrev pub plan_from : ℕ → ℕ → List Call
plan_from zero attempt = []
plan_from (suc zero) attempt = requested ∷ []
plan_from (suc (suc left)) attempt =
    requested ∷ waited (retry_delay attempt) ∷ plan_from (suc left) (suc attempt)

module _ {F : Type 0} (env : SenderEnv F) (url body : String) where
  -- The calls are a beginning of the plan.
  abbrev pub Follows : List Call → List Call → List Call → Type 0
  Follows plan log log' = (k : ℕ) × (log' ≡ reverse_aux (take k plan) log)

  send_from-Follows :
      (left attempt : ℕ) (s : env.St) (log : List Call)
      → left + attempt ≡ 3
      → Follows
          (plan_from left attempt)
          log
          (send_from (observed env) left attempt url body (s, log)).1.1
  unfolding send_from
  send_from-Follows zero attempt s log e = (0, refl)
  send_from-Follows (suc zero) attempt s log e = elim (Result-cases (env.new_request url body)) [
    | inl (q, made) ↦ elim (Result-cases (env.do_request q s).0) [
      | inl (code, answered) ↦ (1, ground arith)
      | inr (x, failed) ↦ (1, ground arith)
    ]
    | inr (x, refused) ↦ (0, ground arith)
  ]
  send_from-Follows (suc (suc left)) attempt s log e =
      elim (Result-cases (env.new_request url body)) [
        | inr (x, refused) ↦ (0, ground arith)
        | inl (q, made) ↦
            let s1 = (env.do_request q s).1 in
            let s2 = (env.wait (retry_delay attempt) s1).1 in
            elim (Bool-cases (is_transient (env.do_request q s).0)) [
              | inr settled ↦ (
                1,
                rw (
                    step_settled (observed env) url body (suc left) attempt q (s, log) made
                      settled),
              )
              | inl again ↦ elim (Result-cases (env.wait (retry_delay attempt) s1).0) [
                | inr (x, cancelled) ↦ (
                  2,
                  rw (
                      step_cancelled (observed env) url body (suc left) attempt q (s, log) made
                        again (omega arith) cancelled),
                )
                | inl (_, elapsed) ↦
                    let (k, log') =
                      send_from-Follows (suc left) (suc attempt) s2
                        (waited (retry_delay attempt) ∷ requested ∷ log) (omega arith) in
                    (
                      suc (suc k),
                      rw
                          (step_again (observed env) url body (suc left) attempt q (s, log) made
                            again (omega arith) elapsed)
                          log',
                    )
              ]
            ]
      ]

module _ {F : Type 0} (env : SenderEnv F) (url : String) (n : Notification F) where
  -- Whatever the network answers and whenever the context ends, the requests and waits of one
  -- `Send` are a beginning of: a request, a wait of one second, a request, a wait of two seconds,
  -- a request.
  pub send-Follows :
      (s : env.St)
      → (k : ℕ) × ((send (observed env) url n (s, [])).1.1
          ≡ reverse (
              take k
                (requested ∷ waited second ∷ requested ∷ waited (2 * second) ∷ requested ∷ [])))
  unfolding send format_notification
  send-Follows s = elim (Result-cases (env.marshal (format_notification env n))) [
    | inl (body, encoded) ↦
        let (k, e) = send_from-Follows env url body 3 0 s [] refl in (k, rw (send, encoded) e)
    | inr (e, failed) ↦ (0, rw (send, failed))
  ]

  -- If the text can be encoded and the request made, and the first two answers are failures for
  -- the time being with both waits elapsed, the third answer decides `Send`: a failure for the
  -- time being is its error, 2xx its success, and any other status an error.
  send_third_attempt :
      (body : String) (q : env.Request) (s : env.St)
      → let s1 = (env.do_request q s).1 in
        let s2 = (env.wait second s1).1 in
        let s3 = (env.do_request q s2).1 in
        let s4 = (env.wait (2 * second) s3).1 in
        let answer = (env.do_request q s4).0 in
        env.marshal (format_notification env n) ≡ ok body
        → env.new_request url body ≡ ok q
        → is_transient (env.do_request q s).0 ≡ true
        → (env.wait second s1).0 ≡ ok tt
        → is_transient (env.do_request q s2).0 ≡ true
        → (env.wait (2 * second) s3).0 ≡ ok tt
        → send env url n s ≡ (
          (if is_transient answer then err (failure answer) else settled answer),
          (env.do_request q s4).1,
        )
  unfolding send
  send_third_attempt body q s encoded made t1 w1 t2 w2 =
      let s1 = (env.do_request q s).1 in
      let s2 = (env.wait second s1).1 in
      let s3 = (env.do_request q s2).1 in
      let s4 = (env.wait (2 * second) s3).1 in
      rw (send, encoded)
        (step_again env url body 2 0 q s made t1 (omega arith) w1
          ∙ step_again env url body 1 1 q s2 made t2 (omega arith) w2
          ∙ elim (Bool-cases (is_transient (env.do_request q s4).0)) [
            | inl again ↦ rw again (step_last env url body 0 2 q s4 made again refl)
            | inr final ↦ rw final (step_settled env url body 0 2 q s4 made final)
          ])
