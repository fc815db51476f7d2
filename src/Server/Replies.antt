-- ===== src/Server/Replies.antt =====
-- Replies on an open connection, and what the handler of `/alerts` answers and changes.
use server_watch.Base.{
  Bool-cases, sym, ◌∙◌, if◌then◌else◌, str_eq, ◌≢◌, refl, true, [], ◌∷◌, Error, str_eq_iff, ℕ, ◌≡◌,
  ◌⊎◌, Bool, false, Option, none, some, List, map, String, Result, ok, err, arith, inl, inr,
  Option-cases, Result-cases,
}
use Prim.Native.String.{◌++◌}
use server_watch.Model.{Alert}
use server_watch.Http.{Request, Response, response_writer, status_of}
use server_watch.System.Interfaces.{Deps}
use server_watch.System.{World}
use server_watch.System.Settings.{get_alerts}
use server_watch.Server.{system_of}
use server_watch.Handlers.{AlertResponse, HttpEnv, send_json, json_header}
use server_watch.Handlers.Alerts.{alerts_handler, answer_alerts, parse_active_only, alert_response}

-- Nothing is sent yet, on a connection that works.
pub record IsUnwritten (w : Response) : Type 0 where
  pub sent : w.sent ≡ none
  pub broken : w.broken ≡ false

-- A status, and the line that is written, if any.
abbrev pub Reply : Type 0
Reply = ℕ × Option String

abbrev pub written : String → Option String → String
written body none = body
written body (some line) = body ++ (line ++ "\n")

pub record IsReply (reply : Reply) (w w' : Response) : Type 0 where
  pub status : status_of w' ≡ reply.0
  pub body : w'.body ≡ written w.body reply.1

-- The reply of a handler that lists what a call found, by the result of the encoding.
abbrev pub listing : {A : Type 0} → String → (A → Result String) → Result A → Reply
listing failure encode (err e) = (500, some failure)
listing failure encode (ok found) = elim (encode found) [
  | ok text ↦ (200, some text)
  | err e ↦ (500, none)
]

-- What a value of `active_only` asks for.
abbrev pub Asks : String → Bool → Type 0
Asks text true = text ≡ "true"
Asks text false = (text ≡ "") ⊎ (text ≡ "false")

abbrev pub IsUnreadable : String → Type 0
IsUnreadable text = (text ≢ "") × (text ≢ "true") × (text ≢ "false")

parse_empty : (text : String) → str_eq text "" ≡ true → parse_active_only text ≡ some false
parse_empty text e = rw e

parse_given :
    (text : String)
    → str_eq text "" ≡ false
    → parse_active_only text
      ≡ (if str_eq text "true" then some true else if str_eq text "false" then some false else none)
parse_given text e = rw e

parse_active_only-Asks :
    (text : String) (active_only : Bool)
    → parse_active_only text ≡ some active_only
    → Asks text active_only
parse_active_only-Asks text active_only h = elim (Bool-cases (str_eq text "")) [
  | inl e ↦
      let same : active_only ≡ false = cc (h, parse_empty text e) in
      rw same (inl ((str_eq_iff text "").0 e))
  | inr e ↦
      let read = sym (parse_given text e) ∙ h in
      ground (arith, read, str_eq_iff text "true", str_eq_iff text "false")
]

parse_active_only-IsUnreadable : (text : String) → parse_active_only text ≡ none → IsUnreadable text
parse_active_only-IsUnreadable text h = elim (Bool-cases (str_eq text "")) [
  | inl e ↦ absurd (cc (h, parse_empty text e))
  | inr e ↦
      let read = sym (parse_given text e) ∙ h in
      ground (arith, read, e, str_eq_iff text "true", str_eq_iff text "false", str_eq_iff text "")
]

-- The fields of an alert in the answer.
pub record IsShown {F : Type 0} (a : Alert F) (shown : AlertResponse F) : Type 0 where
  pub id : shown.id ≡ a.id
  pub kind : shown.kind ≡ a.kind
  pub timestamp : shown.timestamp ≡ a.timestamp
  pub threshold : shown.threshold ≡ a.threshold
  pub resolved : shown.resolved ≡ a.resolved
  pub resolved_at : shown.resolved_at ≡ a.resolved_at
  pub value : shown.value ≡ a.value

-- Each alert in its place.
abbrev pub AreShown : {F : Type 0} → List (Alert F) → List (AlertResponse F) → Type 0
AreShown [] [] = Unit
AreShown (a ∷ alerts) (x ∷ shown) = IsShown a x × AreShown alerts shown
AreShown _ _ = ⊥

map-AreShown : {F : Type 0} (alerts : List (Alert F)) → AreShown alerts (map alert_response alerts)
map-AreShown [] = tt
map-AreShown (a ∷ alerts) = (
  record {
    id = refl;
    kind = refl;
    timestamp = refl;
    threshold = refl;
    resolved = refl;
    resolved_at = refl;
    value = refl;
  },
  map-AreShown alerts,
)

-- 200 with the alerts that were found, or 500 if that or the encoding failed.
abbrev pub AnswersAlerts :
    {F : Type 0} → HttpEnv F → Result (List (Alert F)) → Response → Response → Type 0
AnswersAlerts env (err e) w w' = IsReply (500, some "ошибка получения списка алертов") w w'
AnswersAlerts {F = F} env (ok found) w w' =
    (shown : List (AlertResponse F)) × AreShown found shown
    × (((text : String) × (env.encode_alerts shown ≡ ok text) × IsReply (200, some text) w w')
        ⊎ ((e : Error) × (env.encode_alerts shown ≡ err e) × IsReply (500, none) w w'))

module _ {F : Type 0} (env : HttpEnv F) (d : Deps F) (w : Response) (unsent : IsUnwritten w) where
  pub send_json-IsReply :
      (text : Result String)
      → IsReply
          (elim text [ ok t ↦ (200, some t) | err e ↦ (500, none) ])
          w
          (send_json response_writer text (json_header response_writer w))
  send_json-IsReply (ok text) = ground (arith, unsent)
  send_json-IsReply (err e) = ground (arith, unsent)

  listing-AnswersAlerts :
      (alerts : Result (List (Alert F))) (w' : Response)
      → IsReply
          (listing "ошибка получения списка алертов"
            (λ found. env.encode_alerts (map alert_response found))
            alerts)
          w
          w'
      → AnswersAlerts env alerts w w'
  listing-AnswersAlerts (err e) w' h = h
  listing-AnswersAlerts (ok found) w' h =
      let shown = map alert_response found in
      (
        shown,
        map-AreShown found,
        elim (Result-cases (env.encode_alerts shown)) [
          | inl (text, encoded) ↦ inl (text, encoded, rw encoded at h)
          | inr (e, failed) ↦ inr (e, failed, rw failed at h)
        ],
      )

  answer_alerts-IsReply :
      (alerts : Result (List (Alert F)))
      → IsReply
          (listing "ошибка получения списка алертов"
            (λ found. env.encode_alerts (map alert_response found))
            alerts)
          w
          (answer_alerts env (system_of d) response_writer alerts w)
  answer_alerts-IsReply (ok found) =
      send_json-IsReply (env.encode_alerts (map alert_response found))
  answer_alerts-IsReply (err e) = ground (arith, unsent)

  module _ (r : Request) (s : World d) {id : String} (identified : r.request_id ≡ some id) where
    alerts_handler-parsed :
        (active_only : Bool)
        → parse_active_only (r.query "active_only") ≡ some active_only
        → alerts_handler env (system_of d) response_writer r w s ≡ (
            let (alerts, s') = get_alerts d active_only s in
            (answer_alerts env (system_of d) response_writer alerts w, s'))
    unfolding alerts_handler
    alerts_handler-parsed active_only asked = ground (arith, asked, identified)

    alerts_handler-unparsed :
        parse_active_only (r.query "active_only") ≡ none
        → let (w', s') = alerts_handler env (system_of d) response_writer r w s in
          IsReply (400, some "некорректное значение параметра active_only") w w' × (s' ≡ s)
    unfolding alerts_handler
    alerts_handler-unparsed bad = ground (arith, bad, identified, unsent)

    get_alerts-reply :
        (active_only : Bool)
        → let encode : List (Alert F) → Result String =
            λ found. env.encode_alerts (map alert_response found) in
          let (alerts, s') = get_alerts d active_only s in
          let (found, repo) = d.repository.get_alerts active_only s.repo in
          (listing "ошибка получения списка алертов" encode alerts
            ≡ listing "ошибка получения списка алертов" encode found)
          × (s' ≡ record s { repo = repo })
    unfolding get_alerts
    get_alerts-reply active_only =
        elim (Result-cases (d.repository.get_alerts active_only s.repo).0) [
          | inl (found, read) ↦ ground (arith, read)
          | inr (e, failed) ↦ ground (arith, failed)
        ]

    -- For a request with an id, on an open connection, `/alerts` does one of two: if `active_only`
    -- is neither empty nor the text true nor the text false, it answers 400 and changes nothing;
    -- otherwise it asks the repository for the active alerts if it is the text true and for all
    -- alerts if it is empty or the text false, and answers 200 with what was found, each alert in
    -- its place with its seven fields, or 500 if that or the encoding failed.
    pub alerts_handler_replies :
        let text = r.query "active_only" in
        let (w', s') = alerts_handler env (system_of d) response_writer r w s in
        IsUnreadable text
          × IsReply (400, some "некорректное значение параметра active_only") w w'
          × (s' ≡ s)
        ⊎ (active_only : Bool) × Asks text active_only
          × (let (alerts, repo) = d.repository.get_alerts active_only s.repo in
              AnswersAlerts env alerts w w' × (s' ≡ record s { repo = repo }))
    alerts_handler_replies = elim (Option-cases (parse_active_only (r.query "active_only"))) [
      | inl bad ↦
          let (reply, kept) = alerts_handler-unparsed bad in
          inl (parse_active_only-IsUnreadable (r.query "active_only") bad, reply, kept)
      | inr (active_only, asked) ↦
          let (same, kept) = get_alerts-reply active_only in
          inr (
            active_only,
            parse_active_only-Asks (r.query "active_only") active_only asked,
            (
              listing-AnswersAlerts (d.repository.get_alerts active_only s.repo).0 _ (
                  rw (alerts_handler-parsed active_only asked, ← same)
                    (answer_alerts-IsReply (get_alerts d active_only s).0)),
              rw (alerts_handler-parsed active_only asked) kept,
            ),
          )
    ]
