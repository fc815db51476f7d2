-- ===== src/Tests/Phases.antt =====
-- The fallback store in each phase.
use server_watch.Base.{◌≡◌, refl, ap, true, false, none, some, ok, arith}
use server_watch.Base.Int.{pos}
use server_watch.Model.{alert_type_high_cpu, alert_type_high_mem, condition_high}
use server_watch.Alerts.Memory.{InMemoryAlertStateStore, memory_backend}
use server_watch.Alerts.Memory.Laws.{memory_laws, memory_GivesSnapshots}
use server_watch.Alerts.Redis.{redis_backend, increment_count, increment_keys}
use server_watch.Alerts.Redis.Contract.{redis_TakesSnapshots}
use server_watch.Alerts.Fallback
use server_watch.Alerts.Fallback.{FallbackAlertStateStore}
use server_watch.Alerts.Fallback.Outage.{increment_count_outage}
use server_watch.Alerts.Fallback.Recovery.{
  increment_count_recovers, increment_count_transient_failure,
}
use server_watch.Tests.Stores.{dead, dead_Fails}
use server_watch.Tests.Client.{server, server_laws, no_keys, no_keys-IsServing, redis, states}

-- One measurement of the CPU so far.
abbrev one_high : InMemoryAlertStateStore
one_high = record {
  states = λ t. some (record { count = pos 1; condition = condition_high; active = false });
}

abbrev pub empty_memory : InMemoryAlertStateStore
empty_memory = record { states = λ t. none }

abbrev healthy : Fallback.Fallback memory_backend (redis_backend server redis)
healthy = record { memory = empty_memory; redis_st = no_keys; redis_failed = false }

abbrev failed : Fallback.Fallback memory_backend (redis_backend server redis)
failed = record { memory = one_high; redis_st = no_keys; redis_failed = true }

-- The next `GET` fails, and only that one.
abbrev hiccup : Fallback.Fallback memory_backend (redis_backend server redis)
hiccup = record {
  memory = empty_memory;
  redis_st = record no_keys { busy = true };
  redis_failed = false;
}

increment_count_outage_example :
    (Fallback.increment_count memory_backend dead alert_type_high_cpu condition_high
      (record { memory = one_high; redis_st = tt; redis_failed = false })).0
    ≡ ok (pos 2)
increment_count_outage_example =
    ap (λ x. x.0)
      (increment_count_outage memory_backend dead memory_laws memory_GivesSnapshots dead_Fails
        alert_type_high_cpu condition_high
        (record { memory = one_high; redis_st = tt; redis_failed = false }) refl (tt, tt)
        (refl, omega arith)).1

increment_count_recovers_example :
    (Fallback.increment_count memory_backend
      (redis_backend server redis)
      alert_type_high_cpu
      condition_high
      failed).0
    ≡ ok (pos 2)
increment_count_recovers_example =
    ap (λ x. x.0)
      (increment_count_recovers memory_backend (redis_backend server redis) memory_laws
        memory_GivesSnapshots states
        (redis_TakesSnapshots server server_laws redis (omega arith) (omega arith))
        alert_type_high_cpu condition_high failed refl refl (tt, no_keys-IsServing, λ u v. refl)
        (refl, omega arith)).1

increment_count_transient_failure_example :
    (Fallback.increment_count memory_backend
      (redis_backend server redis)
      alert_type_high_mem
      condition_high
      (Fallback.increment_count memory_backend
        (redis_backend server redis)
        alert_type_high_cpu
        condition_high
        hiccup).1).0
    ≡ ok (pos 1)
unfolding increment_count increment_keys
increment_count_transient_failure_example =
    increment_count_transient_failure memory_backend (redis_backend server redis) memory_laws
      memory_GivesSnapshots states
      (redis_TakesSnapshots server server_laws redis (omega arith) (omega arith))
      alert_type_high_cpu alert_type_high_mem condition_high condition_high hiccup refl refl refl
      refl refl (tt, no_keys-IsServing, λ u v. refl) (refl, omega arith) refl
