-- ===== src/Tests/Agreement.antt =====
-- The same calls on the Redis store and on the in-memory store, from the start of both.
use server_watch.Base.{◌≡◌, refl, true, List, [], ◌∷◌, arith}
use server_watch.Model.{alert_type_high_cpu, alert_type_high_mem, condition_high, condition_normal}
use server_watch.Alerts.Store.{to_store}
use server_watch.Alerts.Store.Agreement.{Call, increment, ask, mark, answers, Agree}
use server_watch.Alerts.Agreement.{redis-memory_answers}
use server_watch.Alerts.Memory.{new_in_memory_alert_state_store, memory_backend}
use server_watch.Alerts.Memory.Laws.{memory_laws}
use server_watch.Alerts.Redis.{redis_backend}
use server_watch.Tests.Client.{server, server_laws, redis, states, no_keys, no_keys-IsServing}

abbrev some_calls : List Call
some_calls =
    increment alert_type_high_cpu condition_high
    ∷ increment alert_type_high_mem condition_normal
    ∷ increment alert_type_high_cpu condition_high
    ∷ mark alert_type_high_cpu true
    ∷ ask alert_type_high_cpu
    ∷ []

starts-Agree :
    Agree
      (to_store (redis_backend server redis))
      (to_store memory_backend)
      states
      memory_laws
      5
      no_keys
      new_in_memory_alert_state_store
unfolding new_in_memory_alert_state_store
starts-Agree = record {
  ready = no_keys-IsServing;
  ready' = tt;
  same = λ t v. refl;
  room = λ t v. (refl, omega arith);
}

redis-memory_answers_example :
    answers (to_store (redis_backend server redis)) some_calls no_keys
    ≡ answers (to_store memory_backend) some_calls new_in_memory_alert_state_store
redis-memory_answers_example =
    redis-memory_answers server server_laws redis (omega arith) some_calls no_keys
      new_in_memory_alert_state_store (refl, (refl, (refl, (refl, (refl, tt))))) starts-Agree
