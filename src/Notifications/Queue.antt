-- ===== src/Notifications/Queue.antt =====
-- internal/redis/notification-queue.go: notifications as JSON texts in a Redis list.
pub mod Order
use server_watch.Base.{
  ℕ, List, [], ◌∷◌, String, Error, message, redis_nil, errors_is, wrap, Result, ok, err, Action,
  wrapping, if◌then◌else◌,
}
use Prim.Native.String.{◌++◌}
use server_watch.Model.{second, Notification}
use server_watch.RedisClient.{RedisClient}

-- `json.Marshal` and `json.Unmarshal` of a notification, and `Notification{}`.
pub record NotificationCodec (F : Type 0) : Type 0 where
  pub marshal : Notification F → Result String
  pub unmarshal : String → Result (Notification F)
  pub empty : Notification F

module _ {F : Type 0} (client : RedisClient) (codec : NotificationCodec F) (prefix : String) where
  abbrev pub queue_key : String
  queue_key = prefix ++ "notifications:queue"

  unfoldable pub push : Notification F → Action client.St (Unit {0})
  push n s = elim (codec.marshal n) [
    | err e ↦ (err (wrap "не удалось сериализовать уведомление" e), s)
    | ok text ↦
        wrapping "не удалось добавить уведомление в очередь Redis" (client.rpush queue_key text) s
  ]

  abbrev pub decoded : Result (Notification F) → Result (Notification F)
  decoded (ok n) = ok n
  decoded (err e) = err (wrap "ошибка декодирования уведомления" e)

  -- The reply of `BRPOP`: the key and the element.
  abbrev pub from_reply : Result (List String) → Result (Notification F)
  from_reply (err e) =
      if errors_is e redis_nil
      then ok codec.empty
      else err (wrap "не удалось получить уведомление из Redis" e)
  from_reply (ok []) = err (message "некорректная длина списка уведомлений")
  from_reply (ok (key ∷ [])) = err (message "некорректная длина списка уведомлений")
  from_reply (ok (key ∷ text ∷ more)) = decoded (codec.unmarshal text)

  unfoldable pub consume : Action client.St (Notification F)
  consume s = let (r, s') = client.brpop second queue_key s in (from_reply r, s')
