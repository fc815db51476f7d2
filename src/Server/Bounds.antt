-- ===== src/Server/Bounds.antt =====
-- What the handler of `/history` answers on an open connection, and what it asks the repository for.
use server_watch.Base.{
  ◌⊎◌, inl, inr, ltb, Bool-cases, Result-cases, ◌≡◌, suc, ◌-◌, ◌*◌, ◌/◌, ◌<◌, ◌≤◌, some, List, map,
  String, Result, ok, err, arith,
}
use server_watch.Model.{Time, second, Metrics}
use server_watch.Http.{Request, Response, response_writer}
use server_watch.System.Interfaces.{Deps}
use server_watch.System.{World}
use server_watch.System.Settings.{get_history}
use server_watch.Server.{system_of}
use server_watch.Handlers.{HttpEnv}
use server_watch.Handlers.History.{
  history_handler, history_between, metrics_response, answer_history, or_time_ago,
}
use server_watch.Server.Replies.{IsUnwritten, IsReply, listing, send_json-IsReply}

seconds_mono : (a b : Time) → a ≤ b → a / second * second ≤ b / second * second
seconds_mono a b h = omega arith

minus_zero : (t : Time) → t - 0 ≡ t
minus_zero t = omega arith

module _ {F : Type 0} (env : HttpEnv F) (d : Deps F) (w : Response) where
  -- The history from `from` to `to` is read in `s`, and the answer is made of it.
  pub record AnswersHistory (from to : Time) (s s' : World d) (w' : Response) : Type 0 where
    pub asks : s' ≡ record s { repo = (d.repository.get_metrics from to s.repo).1 }
    pub answers :
        IsReply
          (listing "не удалось получить историю измерения метрик"
            (λ found. env.encode_history (map metrics_response found))
            (d.repository.get_metrics from to s.repo).0)
          w
          w'

module _ {F : Type 0} (env : HttpEnv F) (d : Deps F) (w : Response) (unsent : IsUnwritten w) where
  answer_history-IsReply :
      (history : Result (List (Metrics F)))
      → IsReply
          (listing "не удалось получить историю измерения метрик"
            (λ found. env.encode_history (map metrics_response found))
            history)
          w
          (answer_history env (system_of d) response_writer history w)
  answer_history-IsReply (ok found) =
      send_json-IsReply env d w unsent (env.encode_history (map metrics_response found))
  answer_history-IsReply (err e) = ground (arith, unsent)

  module _ (from to : Time) (s : World d) where
    get_history-reply :
        let encode : List (Metrics F) → Result String =
          λ found. env.encode_history (map metrics_response found) in
        let (history, s') = get_history d from to s in
        let (found, repo) = d.repository.get_metrics from to s.repo in
        (listing "не удалось получить историю измерения метрик" encode history
          ≡ listing "не удалось получить историю измерения метрик" encode found)
        × (s' ≡ record s { repo = repo })
    unfolding get_history
    get_history-reply = elim (Result-cases (d.repository.get_metrics from to s.repo).0) [
      | inl (found, read) ↦ ground (arith, read)
      | inr (e, failed) ↦ ground (arith, failed)
    ]

    history_between-ordered :
        from ≤ to
        → history_between env (system_of d) response_writer (ok from) (ok to) w s ≡ (
            let (history, s') = get_history d from to s in
            (answer_history env (system_of d) response_writer history w, s'))
    history_between-ordered ordered = ground (arith, ordered)

    history_between-AnswersHistory :
        from ≤ to
        → let (w', s') = history_between env (system_of d) response_writer (ok from) (ok to) w s in
          AnswersHistory env d w from to s s' w'
    history_between-AnswersHistory ordered =
        let (same, kept) = get_history-reply in
        record {
          asks = rw (history_between-ordered ordered) kept;
          answers =
              rw (history_between-ordered ordered, ← same)
                (answer_history-IsReply (get_history d from to s).0);
        }

    history_between-reversed :
        to < from
        → let (w', s') = history_between env (system_of d) response_writer (ok from) (ok to) w s in
          IsReply (400, some "параметр from не может быть позже параметра to") w w' × (s' ≡ s)
    history_between-reversed reversed = ground (arith, reversed, unsent)

  module _ (r : Request) (s : World d) {id : String} (identified : r.request_id ≡ some id) where
    history_handler-between : history_handler env (system_of d) response_writer r w s ≡ (
        let (from, s1) =
          or_time_ago env (system_of d) response_writer (3600 * second) (r.query "from") s in
        let (to, s2) = or_time_ago env (system_of d) response_writer 0 (r.query "to") s1 in
        history_between env
          (system_of d)
          response_writer
          (env.parse_rfc3339 from)
          (env.parse_rfc3339 to)
          w
          s2)
    unfolding history_handler
    history_handler-between = ground (arith, identified)

    -- For a request with an id whose bounds, given or by default, can be read, on an open
    -- connection, `/history` does one of two: if the upper bound is before the lower one, it
    -- answers 400 and does not ask the repository; otherwise it asks the repository for exactly
    -- these bounds, and answers 200 with what was found, or 500 if that or the encoding failed.
    pub history_handler_replies :
        (from to : Time)
        → let (from_text, s1) =
            or_time_ago env (system_of d) response_writer (3600 * second) (r.query "from") s in
          let (to_text, s2) = or_time_ago env (system_of d) response_writer 0 (r.query "to") s1 in
          env.parse_rfc3339 from_text ≡ ok from
          → env.parse_rfc3339 to_text ≡ ok to
          → let (w', s') = history_handler env (system_of d) response_writer r w s in
            (to < from)
              × IsReply (400, some "параметр from не может быть позже параметра to") w w'
              × (s' ≡ s2)
            ⊎ (from ≤ to) × AnswersHistory env d w from to s2 s' w'
    history_handler_replies from to parsed_from parsed_to =
        let s1 =
          (or_time_ago env (system_of d) response_writer (3600 * second) (r.query "from") s).1 in
        let s2 = (or_time_ago env (system_of d) response_writer 0 (r.query "to") s1).1 in
        elim (Bool-cases (ltb to from)) [
          | inl reversed ↦
              let before : to < from = ground (arith, reversed) in
              let (reply, kept) = history_between-reversed from to s2 before in
              inl (
                before,
                rw (history_handler-between, parsed_from, parsed_to) reply,
                rw (history_handler-between, parsed_from, parsed_to) kept,
              )
          | inr ordered ↦
              let le : from ≤ to = ground (arith, ordered) in
              inr (
                le,
                rw (history_handler-between, parsed_from, parsed_to)
                    (history_between-AnswersHistory from to s2 le),
              )
        ]

    -- Where the text of a time is read back as the time without its fraction of a second, a request
    -- without bounds asks for the last hour in whole seconds.
    pub history_handler_last_hour :
        ((t : Time) → env.parse_rfc3339 (env.format_rfc3339 t) ≡ ok (t / second * second))
        → d.now s.clock ≤ d.now (suc s.clock)
        → r.query "from" ≡ ""
        → r.query "to" ≡ ""
        → let (w', s') = history_handler env (system_of d) response_writer r w s in
          AnswersHistory env d w
            ((d.now s.clock - 3600 * second) / second * second)
            (d.now (suc s.clock) / second * second)
            (record s { clock = suc (suc s.clock) })
            s'
            w'
    history_handler_last_hour rounds later no_from no_to =
        rw
          (
            history_handler-between,
            no_from,
            no_to,
            rounds (d.now s.clock - 3600 * second),
            minus_zero (d.now (suc s.clock)),
            rounds (d.now (suc s.clock)),
          )
          (history_between-AnswersHistory _ _ _ (seconds_mono _ _ (omega arith)))
