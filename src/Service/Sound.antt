-- ===== src/Service/Sound.antt =====
-- The invariant of the service, and its start.
use server_watch.Base.{
  ◌≡◌, ◌⊎◌, ◌≢◌, refl, sym, ap, subst, ◌∙◌, Bool, true, false, none, Result, ok, err, Result-cases,
  inl, inr, arith, String, Action,
}
use server_watch.Config.Validation.{IsValid, validate_iff}
use server_watch.Config.{Config, load}
use server_watch.Config.Loading.{load_ok}
use server_watch.Prometheus.Registry.{Collector}
use server_watch.Storage.Connection.{or_default}
use server_watch.System.Interfaces.{Deps}
use server_watch.System.{World, Readings, collect_metrics}
use server_watch.System.Reports.{Reports, collect_metrics-Reports, collect_metrics-IsDated}
use server_watch.System.Settings.Ignored.{Ignores, collect_metrics_ignores_config}
use server_watch.Service.{
  Service, start, Surroundings, first_round, succeeded, new_system, idle, measured, recorded, Phase,
  waiting,
}

module _ {F : Type 0} (d : Deps F) where
  -- The collector runs and there is no error, or it has ended and the context is done or there is one.
  abbrev pub RunState : Bool → Bool → World d → Type 0
  RunState collecting cancelled w =
      (collecting ≡ true) × (w.last_error ≡ none)
      ⊎ (collecting ≡ false) × ((cancelled ≡ true) ⊎ (w.last_error ≢ none))

  -- What a round has recorded is what `GetMetrics` gives.
  abbrev pub IsCurrent : Phase F → World d → Type 0
  IsCurrent idle w = Unit
  IsCurrent (measured m) w = Unit
  IsCurrent (recorded m) w = w.metrics ≡ m

  -- The configuration is valid; the metrics in memory are those of the last success, and those of
  -- the round that has recorded them; while the collector runs there is no error, and when it has
  -- ended by itself there is one.
  pub record IsSound (s : Service d) : Type 0 where
    pub valid : IsValid d.floats d.env s.world.config
    pub dated : s.world.metrics.timestamp ≡ s.world.last_success
    pub current : IsCurrent s.phase s.world
    pub state : RunState s.collecting s.cancelled s.world

  pub Ignores-config :
      {A : Type 0} (act : Action (World d) A)
      → Ignores d act
      → (w : World d) → (act w).1.config ≡ w.config
  Ignores-config act ignores w = ap (λ o. o.1.config) (ignores w.config w)

  collect_metrics-config :
      (rd : Readings F) (w : World d) → (collect_metrics d rd w).1.config ≡ w.config
  collect_metrics-config rd w =
      ap (λ o. o.1.config) (collect_metrics_ignores_config d rd w.config w)

  pub IsCurrent-transport :
      (p : Phase F) (w w' : World d) → w'.metrics ≡ w.metrics → IsCurrent p w → IsCurrent p w'
  IsCurrent-transport idle w w' h c = tt
  IsCurrent-transport (measured m) w w' h c = tt
  IsCurrent-transport (recorded m) w w' h c = h ∙ c

  -- After a part of a round, the collector runs on exactly if it left no error.
  abbrev pub Shows : Bool → World d → Type 0
  Shows collecting w =
      (collecting ≡ true) × (w.last_error ≡ none) ⊎ (collecting ≡ false) × (w.last_error ≢ none)

  pub Reports-Shows :
      {A : Type 0} (r : Result A) (w : World d) → Reports d r w → Shows (succeeded r) w
  Reports-Shows (ok _) w h = inl (refl, h)
  Reports-Shows (err e) w h = inr (refl, ground (arith, h))

  pub Shows-state :
      (collecting cancelled : Bool) (w : World d)
      → Shows collecting w
      → RunState collecting cancelled w
  Shows-state collecting cancelled w (inl h) = inl h
  Shows-state collecting cancelled w (inr (ended, reported)) = inr (ended, inr reported)

  Shows-calm : (w : World d) (c : Bool) → Shows c w → c ≡ true → w.last_error ≡ none
  Shows-calm w c h on = ground (arith, h, on)

  pub cancelled_state :
      (collecting cancelled : Bool) (w : World d)
      → RunState collecting cancelled w
      → RunState collecting true w
  cancelled_state collecting cancelled w (inl h) = inl h
  cancelled_state collecting cancelled w (inr (ended, _)) = inr (ended, inl refl)

  pub calm : (s : Service d) → IsSound s → s.collecting ≡ true → s.world.last_error ≡ none
  calm s h on = elim h.state [
    | inl (_, silent) ↦ silent
    | inr (off, _) ↦ absurd (ground (arith, on, off))
  ]

  begun-IsSound :
      (cfg : Config F) (path : String) (rd : Readings F) (x : Surroundings d)
      → IsValid d.floats d.env cfg
      → succeeded (collect_metrics d rd (new_system d cfg path x)).0 ≡ true
      → IsSound (record {
        world = (collect_metrics d rd (new_system d cfg path x)).1;
        collecting = true;
        phase = idle;
        serving = true;
        working = true;
        cancelled = false;
        stage = waiting;
        group = 3;
      })
  unfolding new_system
  begun-IsSound cfg path rd x valid fine =
      let w = new_system d cfg path x in
      let (result, w') = collect_metrics d rd w in
      let shows = Reports-Shows result w' (collect_metrics-Reports d rd w) in
      record {
        valid = subst (IsValid d.floats d.env) (sym (collect_metrics-config rd w)) valid;
        dated = collect_metrics-IsDated d rd w refl;
        current = tt;
        state = inl (refl, Shows-calm w' true (rw fine at shows) refl);
      }

  first_round-IsSound :
      (cfg : Config F) (path : String) (rd : Readings F) (registered : Result (Unit {0}))
      (x : Surroundings d) {s : Service d}
      → IsValid d.floats d.env cfg
      → first_round d cfg path rd registered x ≡ ok s
      → IsSound s
  first_round-IsSound cfg path rd registered x valid h =
      elim (Result-cases (collect_metrics d rd (new_system d cfg path x)).0) [
        | inr (e, failed) ↦ absurd (ground (arith, failed, h))
        | inl (u, fine) ↦ elim (Result-cases registered) [
          | inr (e, failed) ↦ absurd (ground (arith, fine, failed, h))
          | inl (u', done) ↦
              subst IsSound (ground (arith, fine, done, h))
                (begun-IsSound cfg path rd x valid (ground (arith, fine)))
        ]
      ]

  pub start-IsSound :
      {R : Type 0} (register : Collector → Action R (Unit {0})) (registry : R)
      (config_path : String) (rd : Readings F) (x : Surroundings d) {s : Service d}
      → start d register registry config_path rd x ≡ ok s
      → IsSound s
  unfolding start
  start-IsSound register registry config_path rd x h =
      let path = or_default "config.yaml" config_path in
      elim (Result-cases (load d.floats d.env path x.files).0) [
        | inr (e, failed) ↦ absurd (ground (arith, failed, h))
        | inl (cfg, loaded) ↦
            let (base, origin, (overrides, fine)) = load_ok d.floats d.env path x.files loaded in
            first_round-IsSound cfg path rd _ _ ((validate_iff d.floats d.env cfg).0 fine)
              (rw (start, loaded) at h)
      ]
