-- ===== src/Alerts/Agreement.antt =====
-- The same calls on the Redis store and on the in-memory store.
use server_watch.Base.{◌≡◌, ◌<◌, List, length, All}
use server_watch.RedisClient.{RedisClient, RedisLaws}
use server_watch.Alerts.Store.{to_store}
use server_watch.Alerts.Store.Agreement.{Call, IsValidCall, answers, Agree, answers-Agree}
use server_watch.Alerts.Memory.{InMemoryAlertStateStore, memory_backend}
use server_watch.Alerts.Memory.Laws.{memory_laws}
use server_watch.Alerts.Redis.{RedisAlertStateStore, redis_backend}
use server_watch.Alerts.Redis.Contract.{redis_laws}

module _ (client : RedisClient) (laws : RedisLaws client) (r : RedisAlertStateStore)
    (lives : 0 < r.ttl) where
  -- While Redis answers and no key expires: if the Redis store, whose lifetime is positive, with
  -- its counters readable, and the in-memory store hold the same states of the valid types, and
  -- every counter has room for as many measurements as there are calls, then any sequence of calls
  -- of `IncrementCount`, `IsActive` and `SetActive` for valid types gives the same results on
  -- both.
  pub redis-memory_answers :
      (calls : List Call) (s : client.St) (i : InMemoryAlertStateStore)
      → All IsValidCall calls
      → Agree
          (to_store (redis_backend client r))
          (to_store memory_backend)
          (redis_laws client laws r lives)
          memory_laws
          (length calls)
          s
          i
      → answers (to_store (redis_backend client r)) calls s
        ≡ answers (to_store memory_backend) calls i
  redis-memory_answers =
      answers-Agree (to_store (redis_backend client r)) (to_store memory_backend)
        (redis_laws client laws r lives) memory_laws
