-- ===== src/Service/Ordered.antt =====
-- What holds of the service at each step: where `main` stands, and the counter of the wait group.
use server_watch.Base.{
  ◌+◌, ◌≡◌, ◌⊎◌, refl, inl, inr, Bool, true, false, Result, ok, arith, String, Action, Result-cases,
}
use server_watch.Storage.Connection.{or_default}
use server_watch.Config.{Config, load}
use server_watch.Prometheus.Registry.{Collector}
use server_watch.System.Interfaces.{Deps}
use server_watch.System.{World, Readings, measure, record_metrics, evaluate}
use server_watch.Handlers.{HttpEnv}
use server_watch.Server.{Mounted}
use server_watch.Service.Draining.{AllEnded, flag}
use server_watch.Service.{
  Service, Phase, waiting, exited, is_over, measured, recorded, idle, advance, Step, Reach, tick,
  save, alert, collector_stops, request, consume, worker_stops, server_fails, server_closes, signal,
  on_signal, on_collector, on_server, shutdown_done, shutdown_fails, all_done, here, next, start,
  Surroundings, first_round,
}

none_left : (a b c : Bool) → 0 ≡ flag a + flag b + flag c → (a ≡ false) × (b ≡ false) × (c ≡ false)
none_left a b c h = ground (arith, h)

module _ {F : Type 0} {d : Deps F} where
  -- The counter of the wait group is the number of goroutines that run.
  abbrev pub IsCounted : Service d → Type 0
  IsCounted s = s.group ≡ flag s.collecting + flag s.serving + flag s.working

  -- `main` has left its `select` only with the context done, and has returned only after all ends.
  pub record IsOrdered (s : Service d) : Type 0 where
    pub left : (s.stage ≡ waiting) ⊎ (s.cancelled ≡ true)
    pub joined : is_over s.stage ≡ false ⊎ (s.stage ≡ exited) ⊎ AllEnded s
    pub counted : IsCounted s

module _ {F : Type 0} (d : Deps F) (env : HttpEnv F) (mounted : Mounted F) (pprof : Bool) where
  -- A part of a round that fails takes one from the counter.
  advance-IsOrdered :
      {A : Type 0} (act : Action (World d) A) (continue : A → Phase F) (s : Service d)
      → is_over s.stage ≡ false
      → s.collecting ≡ true
      → IsOrdered s
      → IsOrdered (advance d env mounted pprof act continue s)
  advance-IsOrdered act continue s alive on h = record {
    left = h.left;
    joined = inl alive;
    counted = elim (Result-cases (act s.world).0) [
      | inl (x, fine) ↦ ground (arith, fine, on, h.counted)
      | inr (e, failed) ↦ ground (arith, failed, on, h.counted)
    ];
  }

  pub Step-IsOrdered :
      {s t : Service d}
      → is_over s.stage ≡ false
      → Step d env mounted pprof s t
      → IsOrdered s
      → IsOrdered t
  Step-IsOrdered {s} alive (tick rd on at) h =
      advance-IsOrdered (measure d rd) measured s alive on h
  Step-IsOrdered {s} alive (save m on at) h =
      advance-IsOrdered (record_metrics d m) (λ _. recorded m) s alive on h
  Step-IsOrdered {s} alive (alert m on at) h =
      advance-IsOrdered (evaluate d m) (λ _. idle) s alive on h
  Step-IsOrdered alive (collector_stops on at done) h = record {
    left = h.left;
    joined = inl alive;
    counted = ground (arith, on, h.counted);
  }
  Step-IsOrdered alive (request fresh broken r on) h = record {
    left = h.left;
    joined = inl alive;
    counted = h.counted;
  }
  Step-IsOrdered alive (consume on) h = record {
    left = h.left;
    joined = inl alive;
    counted = h.counted;
  }
  Step-IsOrdered alive (worker_stops on done) h = record {
    left = h.left;
    joined = inl alive;
    counted = ground (arith, on, h.counted);
  }
  Step-IsOrdered alive (server_fails on) h = record {
    left = h.left;
    joined = inl alive;
    counted = ground (arith, on, h.counted);
  }
  Step-IsOrdered alive (server_closes on at) h = record {
    left = h.left;
    joined = inl alive;
    counted = ground (arith, on, h.counted);
  }
  Step-IsOrdered alive signal h = record {
    left = inr refl;
    joined = inl alive;
    counted = h.counted;
  }
  Step-IsOrdered alive (on_signal at done) h = record {
    left = inr done;
    joined = inl refl;
    counted = h.counted;
  }
  Step-IsOrdered alive (on_collector at off) h = record {
    left = inr refl;
    joined = inl refl;
    counted = h.counted;
  }
  Step-IsOrdered alive (on_server at off) h = record {
    left = inr refl;
    joined = inl refl;
    counted = h.counted;
  }
  Step-IsOrdered alive (shutdown_done at) h = record {
    left = ground (arith, h.left, at);
    joined = inl refl;
    counted = h.counted;
  }
  Step-IsOrdered alive (shutdown_fails at) h = record {
    left = ground (arith, h.left, at);
    joined = inr (inl refl);
    counted = h.counted;
  }
  Step-IsOrdered {s} alive (all_done at empty) h =
      let (c, sv, w) =
        none_left s.collecting s.serving s.working (omega (arith, empty, h.counted)) in
      record {
        left = ground (arith, h.left, at);
        joined = inr (inr (c, sv, w));
        counted = h.counted;
      }

  Reach-IsOrdered : {s t : Service d} → IsOrdered s → Reach d env mounted pprof s t → IsOrdered t
  Reach-IsOrdered h here = h
  Reach-IsOrdered h (next reach alive step) = Step-IsOrdered alive step (Reach-IsOrdered h reach)

  first_round-IsOrdered :
      (cfg : Config F) (path : String) (rd : Readings F) (registered : Result (Unit {0}))
      (x : Surroundings d) {s : Service d}
      → first_round d cfg path rd registered x ≡ ok s
      → IsOrdered s
  first_round-IsOrdered cfg path rd registered x {s} h =
      let at : s.stage ≡ waiting = ground (arith, h) in
      record { left = inl at; joined = inl (ground (arith, at)); counted = ground (arith, h) }

  start-IsOrdered :
      {R : Type 0} (register : Collector → Action R (Unit {0})) (registry : R)
      (config_path : String) (rd : Readings F) (x : Surroundings d) {s : Service d}
      → start d register registry config_path rd x ≡ ok s
      → IsOrdered s
  unfolding start
  start-IsOrdered register registry config_path rd x h =
      let path = or_default "config.yaml" config_path in
      elim (Result-cases (load d.floats d.env path x.files).0) [
        | inr (e, failed) ↦ absurd (ground (arith, failed, h))
        | inl (cfg, loaded) ↦ first_round-IsOrdered cfg path rd _ _ (rw (start, loaded) at h)
      ]

  pub reached-IsOrdered :
      {R : Type 0} (register : Collector → Action R (Unit {0})) (registry : R)
      (config_path : String) (rd : Readings F) (x : Surroundings d) {s t : Service d}
      → start d register registry config_path rd x ≡ ok s
      → Reach d env mounted pprof s t
      → IsOrdered t
  reached-IsOrdered register registry config_path rd x started reach =
      Reach-IsOrdered (start-IsOrdered register registry config_path rd x started) reach
