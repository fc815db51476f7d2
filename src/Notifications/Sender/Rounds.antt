-- ===== src/Notifications/Sender/Rounds.antt =====
-- The rounds of the loop of `Send`.
use server_watch.Base.{
  wrap, sym, ◌∙◌, ℕ, zero, suc, ◌+◌, ◌≡◌, ◌≤◌, refl, ap, arith, fun_ext, String, ok, err, Action,
}
use server_watch.Model.{Notification}
use server_watch.Notifications.Sender.{
  SenderEnv, after_request, send_from, send, format_notification,
}

module _ {F : Type 0} (env : SenderEnv F) (url body : String) where
  -- One round before the rounds `next`.
  abbrev round : ℕ → Action env.St (Unit {0}) → Action env.St (Unit {0})
  round attempt next s = elim (env.new_request url body) [
    | err e ↦ (err (wrap "ошибка создания запроса" e), s)
    | ok request ↦ let (r, s') = env.do_request request s in after_request env attempt r next s'
  ]

  round-last :
      (attempt : ℕ) (next next' : Action env.St (Unit {0})) (s : env.St)
      → attempt ≡ 2
      → round attempt next s ≡ round attempt next' s
  round-last attempt next next' s last = ground (arith, last)

  send_from-round :
      (left attempt : ℕ)
      → send_from env (suc left) attempt url body
        ≡ round attempt (send_from env left (suc attempt) url body)
  unfolding send_from
  send_from-round left attempt = refl

  -- More rounds change nothing.
  send_from-enough :
      (left many attempt : ℕ)
      → left + attempt ≡ 2
      → left ≤ many
      → send_from env (suc many) attempt url body ≡ send_from env (suc left) attempt url body
  send_from-enough zero many attempt e l =
      send_from-round many attempt
      ∙ fun_ext (λ s. round-last attempt _ _ s (omega arith))
      ∙ sym (send_from-round zero attempt)
  send_from-enough (suc left) zero attempt e l = absurd (omega arith)
  send_from-enough (suc left) (suc many) attempt e l =
      send_from-round (suc many) attempt
      ∙ ap (round attempt) (send_from-enough left many (suc attempt) (omega arith) (omega arith))
      ∙ sym (send_from-round (suc left) attempt)

module _ {F : Type 0} (env : SenderEnv F) (url : String) (n : Notification F) (s : env.St)
    {body : String} where
  -- If the text can be encoded, the loop of `Send` with any bound of three rounds or more gives
  -- the same as `Send`: it never runs out of its rounds, so that the error behind the loop is not
  -- reached.
  pub send_rounds :
      (rounds : ℕ)
      → 3 ≤ rounds
      → env.marshal (format_notification env n) ≡ ok body
      → send env url n s ≡ send_from env rounds 0 url body s
  unfolding send
  send_rounds zero l encoded = absurd (omega arith)
  send_rounds (suc many) l encoded =
      rw (send, encoded)
        (ap (λ act. act s) (sym (send_from-enough env url body 2 many 0 refl (omega arith))))
