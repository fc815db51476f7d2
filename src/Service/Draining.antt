-- ===== src/Service/Draining.antt =====
-- What the goroutines of the service do by themselves, and how far they are from their ends.
use server_watch.Base.{
  ◌≢◌, ℕ, ◌+◌, ◌<◌, ◌≡◌, ◌⊎◌, inl, inr, Bool, true, false, arith, Result-cases, if◌then◌else◌,
}
use server_watch.System.Interfaces.{Deps}
use server_watch.Handlers.{HttpEnv}
use server_watch.Server.{Mounted}
use server_watch.System.{record_metrics, evaluate}
use server_watch.Service.{
  Service, Stage, waiting, stopping, joining, returned, exited, is_over, Phase, idle, measured,
  recorded, Step, tick, save, alert, collector_stops, request, consume, worker_stops, server_fails,
  server_closes, signal, on_signal, on_collector, on_server, shutdown_done, shutdown_fails,
  all_done,
}

abbrev pub flag : Bool → ℕ
flag b = if b then 1 else 0

abbrev phase_rank : {F : Type 0} → Phase F → ℕ
phase_rank idle = 0
phase_rank (recorded m) = 1
phase_rank (measured m) = 2

abbrev stage_rank : Stage → ℕ
stage_rank waiting = 3
stage_rank stopping = 2
stage_rank joining = 1
stage_rank returned = 0
stage_rank exited = 0

module _ {F : Type 0} {d : Deps F} where
  -- Every goroutine of the wait group has ended.
  abbrev pub AllEnded : Service d → Type 0
  AllEnded s = (s.collecting ≡ false) × (s.serving ≡ false) × (s.working ≡ false)

  -- What ends the `select` of `main`.
  abbrev pub IsWoken : Service d → Type 0
  IsWoken s = (s.cancelled ≡ true) ⊎ (s.collecting ≡ false) ⊎ (s.serving ≡ false)

  -- How many steps of their own the goroutines can still take.
  abbrev pub steps_left : Service d → ℕ
  steps_left s =
      phase_rank s.phase + flag s.collecting + flag s.serving + flag s.working + stage_rank s.stage

module _ {F : Type 0} (d : Deps F) (env : HttpEnv F) (mounted : Mounted F) (pprof : Bool) where
  -- The steps that need nothing from outside: no tick, request, notification or signal comes, the
  -- server does not fail, and the time of the shutdown does not run out.
  abbrev pub IsOwn : {s t : Service d} → Step d env mounted pprof s t → Type 0
  IsOwn (tick rd on at) = ⊥
  IsOwn (save m on at) = Unit
  IsOwn (alert m on at) = Unit
  IsOwn (collector_stops on at done) = Unit
  IsOwn (request fresh broken r on) = ⊥
  IsOwn (consume on) = ⊥
  IsOwn (worker_stops on done) = Unit
  IsOwn (server_fails on) = ⊥
  IsOwn (server_closes on at) = Unit
  IsOwn signal = ⊥
  IsOwn (on_signal at done) = Unit
  IsOwn (on_collector at off) = Unit
  IsOwn (on_server at off) = Unit
  IsOwn (shutdown_done at) = Unit
  IsOwn (shutdown_fails at) = ⊥
  IsOwn (all_done at empty) = Unit

  -- Whichever of their own steps the goroutines take, they can go on until `main` has returned.
  pub data Returns : Service d → Type 0 where
    has_returned : (s : Service d) → s.stage ≡ returned → Returns s
    goes_on :
        (s t : Service d) (step : Step d env mounted pprof s t)
        → is_over s.stage ≡ false
        → IsOwn step
        → ((u : Service d) (other : Step d env mounted pprof s u) → IsOwn other → Returns u)
        → Returns s

  pub Step-steps_left :
      {s t : Service d} (step : Step d env mounted pprof s t)
      → IsOwn step
      → steps_left t < steps_left s
  Step-steps_left (tick rd on at) own = absurd own
  Step-steps_left {s} (save m on at) own = elim (Result-cases (record_metrics d m s.world).0) [
    | inl (x, fine) ↦ ground (arith, fine, on, at)
    | inr (e, failed) ↦ ground (arith, failed, on, at)
  ]
  Step-steps_left {s} (alert m on at) own = elim (Result-cases (evaluate d m s.world).0) [
    | inl (x, fine) ↦ ground (arith, fine, on, at)
    | inr (e, failed) ↦ ground (arith, failed, on, at)
  ]
  Step-steps_left (collector_stops on at done) own = ground (arith, on)
  Step-steps_left (request fresh broken r on) own = absurd own
  Step-steps_left (consume on) own = absurd own
  Step-steps_left (worker_stops on done) own = ground (arith, on)
  Step-steps_left (server_fails on) own = absurd own
  Step-steps_left (server_closes on at) own = ground (arith, on)
  Step-steps_left signal own = absurd own
  Step-steps_left (on_signal at done) own = ground (arith, at)
  Step-steps_left (on_collector at off) own = ground (arith, at)
  Step-steps_left (on_server at off) own = ground (arith, at)
  Step-steps_left (shutdown_done at) own = ground (arith, at)
  Step-steps_left (shutdown_fails at) own = absurd own
  Step-steps_left (all_done at empty) own = ground (arith, at)

  pub Step-IsWoken :
      {s t : Service d} (step : Step d env mounted pprof s t) → IsOwn step → IsWoken s → IsWoken t
  Step-IsWoken (tick rd on at) own h = absurd own
  Step-IsWoken (save m on at) own h = ground (arith, on, h)
  Step-IsWoken (alert m on at) own h = ground (arith, on, h)
  Step-IsWoken (collector_stops on at done) own h = inl done
  Step-IsWoken (request fresh broken r on) own h = absurd own
  Step-IsWoken (consume on) own h = absurd own
  Step-IsWoken (worker_stops on done) own h = inl done
  Step-IsWoken (server_fails on) own h = absurd own
  Step-IsWoken (server_closes on at) own h = ground (arith, h)
  Step-IsWoken signal own h = absurd own
  Step-IsWoken (on_signal at done) own h = inl done
  Step-IsWoken (on_collector at off) own h = ground arith
  Step-IsWoken (on_server at off) own h = ground arith
  Step-IsWoken (shutdown_done at) own h = h
  Step-IsWoken (shutdown_fails at) own h = absurd own
  Step-IsWoken (all_done at empty) own h = h

  -- `Shutdown` fails in no step of their own.
  pub Step-inside :
      {s t : Service d} (step : Step d env mounted pprof s t)
      → IsOwn step
      → s.stage ≢ exited
      → t.stage ≢ exited
  Step-inside (tick rd on at) own h = absurd own
  Step-inside (save m on at) own h = h
  Step-inside (alert m on at) own h = h
  Step-inside (collector_stops on at done) own h = h
  Step-inside (request fresh broken r on) own h = absurd own
  Step-inside (consume on) own h = absurd own
  Step-inside (worker_stops on done) own h = h
  Step-inside (server_fails on) own h = absurd own
  Step-inside (server_closes on at) own h = h
  Step-inside signal own h = absurd own
  Step-inside (on_signal at done) own h = λ e. cc
  Step-inside (on_collector at off) own h = λ e. cc
  Step-inside (on_server at off) own h = λ e. cc
  Step-inside (shutdown_done at) own h = λ e. cc
  Step-inside (shutdown_fails at) own h = absurd own
  Step-inside (all_done at empty) own h = λ e. cc
