-- ===== src/Service/Shutdown.antt =====
-- The end of `main`: its `select`, `server.Shutdown` and `wg.Wait`.
use server_watch.Base.{
  ℕ, zero, suc, ◌≤◌, ◌≡◌, ◌⊎◌, ◌≢◌, refl, inl, inr, Bool, true, false, ok, arith, String, Action,
  Bool-cases,
}
use server_watch.Model.{Metrics}
use server_watch.Prometheus.Registry.{Collector}
use server_watch.System.Interfaces.{Deps}
use server_watch.System.{Readings}
use server_watch.Handlers.{HttpEnv}
use server_watch.Server.{Mounted}
use server_watch.Service.Draining.{
  AllEnded, IsWoken, IsOwn, Returns, has_returned, goes_on, steps_left, Step-steps_left,
  Step-IsWoken, Step-inside,
}
use server_watch.Service.Ordered.{IsOrdered, Step-IsOrdered, reached-IsOrdered}
use server_watch.Service.{
  Service, Stage, Phase, idle, measured, recorded, waiting, stopping, joining, returned, exited,
  is_over, Step, Reach, save, alert, collector_stops, worker_stops, server_closes, on_signal,
  on_collector, on_server, shutdown_done, all_done, start, Surroundings,
}

Stage-cases : (p : Stage) → is_over p ≡ false → (p ≡ waiting) ⊎ (p ≡ stopping) ⊎ (p ≡ joining)
Stage-cases waiting h = inl refl
Stage-cases stopping h = inr (inl refl)
Stage-cases joining h = inr (inr refl)
Stage-cases returned h = absurd (ground (arith, h))
Stage-cases exited h = absurd (ground (arith, h))

over-cases : (p : Stage) → (is_over p ≡ false) ⊎ (p ≡ returned) ⊎ (p ≡ exited)
over-cases waiting = inl refl
over-cases stopping = inl refl
over-cases joining = inl refl
over-cases returned = inr (inl refl)
over-cases exited = inr (inr refl)

Phase-cases :
    {F : Type 0} (p : Phase F)
    → (p ≡ idle) ⊎ ((m : Metrics F) × (p ≡ measured m)) ⊎ ((m : Metrics F) × (p ≡ recorded m))
Phase-cases idle = inl refl
Phase-cases (measured m) = inr (inl (m, refl))
Phase-cases (recorded m) = inr (inr (m, refl))

module _ {F : Type 0} (d : Deps F) (env : HttpEnv F) (mounted : Mounted F) (pprof : Bool) where
  -- A step that the goroutines take by themselves.
  abbrev Moves : Service d → Type 0
  Moves s = (t : Service d) × (step : Step d env mounted pprof s t) × IsOwn d env mounted pprof step

  collector-Moves : (s : Service d) → s.cancelled ≡ true → s.collecting ≡ true → Moves s
  collector-Moves s told on = elim (Phase-cases s.phase) [
    | inl at ↦ (_, collector_stops on at told, tt)
    | inr (inl (m, at)) ↦ (_, save m on at, tt)
    | inr (inr (m, at)) ↦ (_, alert m on at, tt)
  ]

  joining-Moves : (s : Service d) → IsOrdered s → s.stage ≡ joining → Moves s
  joining-Moves s h at =
      let told : s.cancelled ≡ true = ground (arith, h.left, at) in
      elim (Bool-cases s.collecting) [
        | inl on ↦ collector-Moves s told on
        | inr off ↦ elim (Bool-cases s.working) [
          | inl on ↦ (_, worker_stops on told, tt)
          | inr ended ↦ elim (Bool-cases s.serving) [
            | inl on ↦ (_, server_closes on (ground (arith, at)), tt)
            | inr closed ↦ (_, all_done at (ground (arith, h.counted, off, ended, closed)), tt)
          ]
        ]
      ]

  waiting-Moves : (s : Service d) → s.stage ≡ waiting → IsWoken s → Moves s
  waiting-Moves s at woken = elim woken [
    | inl done ↦ (_, on_signal at done, tt)
    | inr (inl off) ↦ (_, on_collector at off, tt)
    | inr (inr off) ↦ (_, on_server at off, tt)
  ]

  woken-Moves : (s : Service d) → IsOrdered s → IsWoken s → is_over s.stage ≡ false → Moves s
  woken-Moves s h woken alive = elim (Stage-cases s.stage alive) [
    | inl at ↦ waiting-Moves s at woken
    | inr (inl at) ↦ (_, shutdown_done at, tt)
    | inr (inr at) ↦ joining-Moves s h at
  ]

  within-Returns :
      (n : ℕ) (s : Service d)
      → steps_left s ≤ n
      → IsOrdered s
      → IsWoken s
      → s.stage ≢ exited
      → Returns d env mounted pprof s
  within-Returns zero s bound h woken inside = elim (over-cases s.stage) [
    | inr (inl at) ↦ has_returned s at
    | inr (inr out) ↦ absurd (inside out)
    | inl alive ↦
        let (t, step, own) = woken-Moves s h woken alive in
        let fewer = Step-steps_left d env mounted pprof step own in
        absurd (omega (arith, bound, fewer))
  ]
  within-Returns (suc n) s bound h woken inside = elim (over-cases s.stage) [
    | inr (inl at) ↦ has_returned s at
    | inr (inr out) ↦ absurd (inside out)
    | inl alive ↦
        let (t, step, own) = woken-Moves s h woken alive in
        goes_on s t step alive own (λ u other own'.
          let fewer = Step-steps_left d env mounted pprof other own' in
          within-Returns n u (omega (arith, bound, fewer))
            (Step-IsOrdered d env mounted pprof alive other h)
            (Step-IsWoken d env mounted pprof other own' woken)
            (Step-inside d env mounted pprof other own' inside))
  ]

  module _ {R : Type 0} (register : Collector → Action R (Unit {0})) (registry : R)
      (config_path : String) (rd : Readings F) (x : Surroundings d) {s t : Service d}
      (started : start d register registry config_path rd x ≡ ok s)
      (reach : Reach d env mounted pprof s t) where
    ordered : IsOrdered t
    ordered = reached-IsOrdered d env mounted pprof register registry config_path rd x started reach

    -- After a start that succeeded and any steps of the service, if `main` has returned, for which
    -- it has waited until the counter of the wait group was 0, the context is done, and the
    -- collector, the server and the worker have all ended.
    pub returned-AllEnded : t.stage ≡ returned → (t.cancelled ≡ true) × AllEnded t
    returned-AllEnded over = (ground (arith, ordered.left, over), ended ordered.joined)
      where
        ended : (is_over t.stage ≡ false) ⊎ (t.stage ≡ exited) ⊎ AllEnded t → AllEnded t
        ended (inl alive) = absurd (ground (arith, over, alive))
        ended (inr (inl out)) = absurd (ground (arith, over, out))
        ended (inr (inr all)) = all

    -- After a start that succeeded and any steps of the service, while `main` is not over, if the
    -- context is done or the collector or the server has ended, then `main` returns whichever
    -- steps the goroutines and `main` take by themselves: there is always one to take, and every
    -- sequence of them ends with the return. Nothing from outside is needed: no tick, request,
    -- notification or signal, and no failure of the server; `Shutdown` does not fail.
    pub woken-Returns : is_over t.stage ≡ false → IsWoken t → Returns d env mounted pprof t
    woken-Returns alive woken =
        within-Returns (steps_left t) t (omega arith) ordered woken (ground (arith, alive))
