-- ===== src/Service/Invariant.antt =====
-- The states of the service that can be reached.
use server_watch.Base.{
  ℕ, ◌≡◌, ◌≢◌, refl, sym, ap, subst, Result-cases, ◌∙◌, Bool, true, false, none, ok, inl, inr,
  arith, String, Action,
}
use server_watch.Config.Validation.{IsValid}
use server_watch.Prometheus.Registry.{Collector}
use server_watch.Model.{Metrics}
use server_watch.Http.{Request, fresh_response, status_of}
use server_watch.System.Interfaces.{Deps}
use server_watch.System.{World, Readings, measure, record_metrics, evaluate}
use server_watch.System.Reports.{
  Reports, IsDated, measured-Reports, measure-IsDated, record_metrics-Reports,
  record_metrics-IsDated, evaluate-Reports, evaluate-IsDated,
}
use server_watch.System.Settings.Ignored.{
  Ignores, measure-Ignores, record_metrics-Ignores, evaluate-Ignores,
}
use server_watch.Handlers.{HttpEnv}
use server_watch.Server.{Mounted, http_server}
use server_watch.Server.Effects.{http_server-IsServed}
use server_watch.Server.Verdicts.{http_server-health}
use server_watch.Service.{
  Service, Phase, idle, measured, recorded, Step, Reach, tick, save, alert, collector_stops,
  request, consume, worker_stops, server_fails, server_closes, signal, on_signal, on_collector,
  on_server, shutdown_done, shutdown_fails, all_done, Stage, stopping, here, next, phase_after,
  advance, after_request, start, Surroundings, succeeded,
}
use server_watch.Service.Sound.{
  RunState, IsCurrent, IsCurrent-transport, IsSound, calm, Ignores-config, Reports-Shows,
  Shows-state, cancelled_state, start-IsSound,
}

module _ {F : Type 0} (d : Deps F) where
  module _ (env : HttpEnv F) (mounted : Mounted F) (pprof : Bool) where
    advance-IsSound :
        {A : Type 0} (act : Action (World d) A) (continue : A → Phase F) (s : Service d)
        → IsSound d s
        → Ignores d act
        → IsDated d (act s.world).1
        → Reports d (act s.world).0 (act s.world).1
        → IsCurrent d (advance d env mounted pprof act continue s).phase (act s.world).1
        → IsSound d (advance d env mounted pprof act continue s)
    advance-IsSound act continue s h ignores dated reports current =
        let (result, w') = act s.world in
        record {
          valid =
              subst (IsValid d.floats d.env) (sym (Ignores-config d act ignores s.world)) h.valid;
          dated = dated;
          current = current;
          state =
              Shows-state d (succeeded result) s.cancelled w' (Reports-Shows d result w' reports);
        }

    measure-IsCurrent :
        (rd : Readings F) (w : World d)
        → IsCurrent d (phase_after measured (measure d rd w).0) (measure d rd w).1
    measure-IsCurrent rd w = elim (Result-cases (measure d rd w).0) [
      | inl (m, fine) ↦ rw fine tt
      | inr (e, failed) ↦ rw failed tt
    ]

    record_metrics-IsCurrent :
        (m : Metrics F) (w : World d)
        → IsCurrent d
            (phase_after (λ _. recorded m) (record_metrics d m w).0)
            (record_metrics d m w).1
    unfolding record_metrics
    record_metrics-IsCurrent m w = ground arith

    evaluate-IsCurrent :
        (m : Metrics F) (w : World d)
        → IsCurrent d (phase_after (λ _. idle) (evaluate d m w).0) (evaluate d m w).1
    evaluate-IsCurrent m w = elim (Result-cases (evaluate d m w).0) [
      | inl (m, fine) ↦ rw fine tt
      | inr (e, failed) ↦ rw failed tt
    ]

    after_request-IsSound :
        (fresh : String) (broken : Bool) (r : Request) (s : Service d)
        → IsSound d s
        → IsSound d (after_request d env mounted pprof fresh broken r s)
    after_request-IsSound fresh broken r s h =
        let served =
          http_server-IsServed env d mounted pprof fresh r (fresh_response broken) s.world in
        record {
          valid = served.valid h.valid;
          dated = ap (λ m. m.timestamp) served.metrics ∙ h.dated ∙ sym served.last_success;
          current = IsCurrent-transport d s.phase s.world _ served.metrics h.current;
          state = rw served.last_error h.state;
        }

    -- The worker, the server and the stage of `main` have no part in it.
    unmoved :
        {s : Service d} {serving working : Bool} {stage : Stage} {group : ℕ}
        → IsSound d s
        → IsSound d
            (record s { serving = serving; working = working; stage = stage; group = group })
    unmoved h = record { valid = h.valid; dated = h.dated; current = h.current; state = h.state }

    cancelled-IsSound :
        (s : Service d) (stage : Stage)
        → IsSound d s
        → IsSound d (record s { cancelled = true; stage = stage })
    cancelled-IsSound s stage h = record {
      valid = h.valid;
      dated = h.dated;
      current = h.current;
      state = cancelled_state d s.collecting s.cancelled s.world h.state;
    }

    Step-IsSound : {s t : Service d} → Step d env mounted pprof s t → IsSound d s → IsSound d t
    Step-IsSound {s} (tick rd on at) h =
        advance-IsSound (measure d rd) measured s h (measure-Ignores d rd)
          (measure-IsDated d rd s.world h.dated) (measured-Reports d rd s.world (calm d s h on))
          (measure-IsCurrent rd s.world)
    Step-IsSound {s} (save m on at) h =
        advance-IsSound (record_metrics d m) (λ _. recorded m) s h (record_metrics-Ignores d m)
          (record_metrics-IsDated d m s.world h.dated) (record_metrics-Reports d m s.world)
          (record_metrics-IsCurrent m s.world)
    Step-IsSound {s} (alert m on at) h =
        advance-IsSound (evaluate d m) (λ _. idle) s h (evaluate-Ignores d m)
          (evaluate-IsDated d m s.world h.dated) (evaluate-Reports d m s.world (calm d s h on))
          (evaluate-IsCurrent m s.world)
    Step-IsSound (collector_stops on at done) h = record {
      valid = h.valid;
      dated = h.dated;
      current = h.current;
      state = inr (refl, inl done);
    }
    Step-IsSound {s} (request fresh broken r on) h = after_request-IsSound fresh broken r s h
    Step-IsSound {s} (consume on) h = record {
      valid = h.valid;
      dated = h.dated;
      current = IsCurrent-transport d s.phase s.world _ refl h.current;
      state = h.state;
    }
    Step-IsSound (worker_stops on done) h = unmoved h
    Step-IsSound (server_fails on) h = unmoved h
    Step-IsSound (server_closes on at) h = unmoved h
    Step-IsSound {s} signal h = cancelled-IsSound s s.stage h
    Step-IsSound (on_signal at done) h = unmoved h
    Step-IsSound {s} (on_collector at off) h = cancelled-IsSound s stopping h
    Step-IsSound {s} (on_server at off) h = cancelled-IsSound s stopping h
    Step-IsSound (shutdown_done at) h = unmoved h
    Step-IsSound (shutdown_fails at) h = unmoved h
    Step-IsSound (all_done at empty) h = unmoved h

    pub Reach-IsSound :
        {s t : Service d} → IsSound d s → Reach d env mounted pprof s t → IsSound d t
    Reach-IsSound h here = h
    Reach-IsSound h (next reach alive step) = Step-IsSound step (Reach-IsSound h reach)

    module _ {R : Type 0} (register : Collector → Action R (Unit {0})) (registry : R)
        (config_path : String) (rd : Readings F) (x : Surroundings d) {s t : Service d}
        (started : start d register registry config_path rd x ≡ ok s)
        (reach : Reach d env mounted pprof s t) where
      -- After a start that succeeded and any steps of the service, the configuration is valid, the
      -- time of the current metrics is that of the last success, a round that has recorded metrics
      -- and not ended finds them still the current ones, and either the collector runs and there
      -- is no last error, or it has ended and the context is cancelled or there is a last error.
      pub reachable-IsSound : IsSound d t
      reachable-IsSound =
          Reach-IsSound (start-IsSound d register registry config_path rd x started) reach

      -- After a start that succeeded and any steps of the service, if the collector has ended
      -- although the context is not cancelled, `/health` answers 503, whatever the request and the
      -- connection.
      pub failed_collector-health :
          (fresh : String) (broken : Bool) (r : Request)
          → t.collecting ≡ false
          → t.cancelled ≡ false
          → r.path ≡ "/health"
          → status_of (http_server env d mounted pprof fresh r (fresh_response broken) t.world).0
            ≡ 503
      failed_collector-health fresh broken r ended going here' =
          elim (http_server-health env d mounted pprof broken fresh r t.world here') [
            | inl (good, _) ↦ absurd (silent reachable-IsSound.state good.calm)
            | inr (_, unavailable) ↦ unavailable
          ]
        where
          silent : RunState d t.collecting t.cancelled t.world → t.world.last_error ≢ none
          silent (inl (on, _)) = ground (arith, on, ended)
          silent (inr (_, inl done)) = ground (arith, done, going)
          silent (inr (_, inr reported)) = reported
