-- ===== src/Server/Updates.antt =====
-- What the handler of `/config` answers on an open connection, and what it changes.
use server_watch.Base.{
  ◌≡◌, ◌⊎◌, true, some, String, Error, Result, ok, err, errors_is, invalid_config, arith, inl, inr,
  sym, ◌∙◌, Option-cases, Result-cases, subst, if◌then◌else◌,
}
use server_watch.Http.{Request, Response, response_writer}
use server_watch.Config.{Config, validate, save_to_yaml}
use server_watch.Config.Validation.{IsValid, validate_iff}
use server_watch.System.Interfaces.{Deps}
use server_watch.System.{World}
use server_watch.System.Settings.{ConfigUpdate, apply_update, update_config, get_config}
use server_watch.System.Settings.Update.{
  IsUpdated, apply_update-IsUpdated, update_config_refused, update_config_accepted,
}
use server_watch.Server.{system_of}
use server_watch.Handlers.{HttpEnv}
use server_watch.Handlers.Configuration.{config_handler, answer_update}
use server_watch.Server.Replies.{IsUnwritten, Reply, IsReply}

-- The reply to an update, by the results of the saving and of the encoding.
abbrev pub update_reply : Result (Unit {0}) → Result String → Reply
update_reply (ok _) (ok text) = (200, some text)
update_reply (ok _) (err e) = (500, some "не удалось закодировать ответ")
update_reply (err e) _ =
    if errors_is e invalid_config
    then (400, some "невалидная конфигурация")
    else (500, some "не удалось обновить конфигурацию")

module _ {F : Type 0} (env : HttpEnv F) (d : Deps F) (w : Response) (unsent : IsUnwritten w) where
  answer_update-IsReply :
      (saved : Result (Unit {0})) (cfg : Config F)
      → IsReply
          (update_reply saved (env.encode_config cfg))
          w
          (answer_update env (system_of d) response_writer saved cfg w)
  answer_update-IsReply (ok _) cfg = elim (Result-cases (env.encode_config cfg)) [
    | inl (text, encoded) ↦ ground (arith, encoded, unsent)
    | inr (e, failed) ↦ ground (arith, failed, unsent)
  ]
  answer_update-IsReply (err e) cfg = ground (arith, unsent)

  module _ (r : Request) (s : World d) {id : String} (identified : r.request_id ≡ some id) where
    config_handler-decoded :
        (u : ConfigUpdate F)
        → env.decode_update r.body ≡ ok u
        → config_handler env (system_of d) response_writer r w s ≡ (
            let (result, s') = update_config d u s in
            (answer_update env (system_of d) response_writer result s'.config w, s'))
    unfolding config_handler get_config
    config_handler-decoded u decoded = ground (arith, decoded, identified)

    refused_reply :
        (e : Error)
        → errors_is e invalid_config ≡ true
        → update_reply (err e) (env.encode_config s.config) ≡ (400, some "невалидная конфигурация")
    refused_reply e kind = ground (arith, kind)

    -- For a request with an id and an update that can be decoded, on an open connection: with the
    -- configuration in which each field that the update gives has its value and every other field
    -- is as before, `/config` does one of two. If that configuration is not valid, it answers 400
    -- and changes nothing; if it is valid, it puts it in force and writes the file, and answers
    -- 200 with the whole configuration, the address of the webhook included, or 400 or 500 if
    -- saving or encoding failed, by then with the new configuration in force.
    pub config_handler_replies :
        (u : ConfigUpdate F)
        → env.decode_update r.body ≡ ok u
        → (cfg : Config F) × IsUpdated u s.config cfg
          × (let (w', s') = config_handler env (system_of d) response_writer r w s in
              let (saved, fs) = save_to_yaml d.floats d.env s.config_path cfg s.files in
              (¬ IsValid d.floats d.env cfg)
                × IsReply (400, some "невалидная конфигурация") w w'
                × (s' ≡ s)
              ⊎ IsValid d.floats d.env cfg
                × IsReply (update_reply saved (env.encode_config cfg)) w w'
                × (s' ≡ record s { config = cfg; files = fs }))
    config_handler_replies u decoded =
        let cfg = apply_update d u s.config in
        (
          cfg,
          apply_update-IsUpdated d u s.config,
          elim (Option-cases (validate d.floats d.env cfg)) [
            | inl fine ↦
                let good = (validate_iff d.floats d.env cfg).0 fine in
                inr (
                  good,
                  rw (config_handler-decoded u decoded, update_config_accepted d u s good)
                      (answer_update-IsReply
                        (save_to_yaml d.floats d.env s.config_path cfg s.files).0 cfg),
                  rw (config_handler-decoded u decoded, update_config_accepted d u s good),
                )
            | inr (e, refused) ↦
                let bad : ¬ IsValid d.floats d.env cfg =
                  λ good. cc (sym refused ∙ (validate_iff d.floats d.env cfg).1 good) in
                let (e', unchanged, kind) = update_config_refused d u s bad in
                inl (
                  bad,
                  rw (config_handler-decoded u decoded, unchanged)
                      (subst
                        (λ reply.
                          IsReply reply w
                            (answer_update env (system_of d) response_writer (err e') s.config w))
                        (refused_reply e' kind) (answer_update-IsReply (err e') s.config)),
                  rw (config_handler-decoded u decoded, unchanged),
                )
          ],
        )
