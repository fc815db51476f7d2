-- ===== src/Config/Loading.antt =====
-- Where the values of a loaded configuration come from.
use server_watch.Base.{
  ◌≡◌, refl, ◌⊎◌, inl, inr, true, false, none, some, String, Error, invalid_yaml, not_exist,
  errors_is, sym, ap, subst₂, ◌∙◌, Result, ok, err, arith, Bool-cases, Option-cases, Result-cases,
}
use server_watch.Model.{Floats}
use server_watch.Config.{
  Config, ConfigEnv, validate, default_config, load_from_env, load_from_yaml, save_to_yaml, load,
  override, then_override, finish_load,
}

module _ {F : Type 0} (fl : Floats F) (env : ConfigEnv F) where
  -- `x` is the parsed value of the variable if it is set, and the value `base` otherwise.
  abbrev pub From : {A : Type 0} → String → (String → Result A) → A → A → Type 0
  From name parse base x =
      ((env.lookup_env name ≡ none) × (x ≡ base))
      ⊎ ((v : String) × (env.lookup_env name ≡ some v) × (parse v ≡ ok x))

  -- Every field of `cfg` comes from its variable, or from `base`.
  pub record Overrides (base cfg : Config F) : Type 0 where
    pub cpu_threshold : From "CPU_THRESHOLD" env.parse_float base.cpu_threshold cfg.cpu_threshold
    pub mem_threshold : From "MEM_THRESHOLD" env.parse_float base.mem_threshold cfg.mem_threshold
    pub trigger_count : From "TRIGGER_COUNT" env.atoi base.trigger_count cfg.trigger_count
    pub resolve_count : From "RESOLVE_COUNT" env.atoi base.resolve_count cfg.resolve_count
    pub slack_enabled : From "SLACK_ENABLED" env.parse_bool base.slack_enabled cfg.slack_enabled
    pub pprof_enabled : From "PPROF_ENABLED" env.parse_bool base.pprof_enabled cfg.pprof_enabled
    pub slack_url : From "SLACK_URL" ok base.slack_url cfg.slack_url

  -- One variable sets its field, and no other.
  override-From :
      {A : Type 0} (name m : String) (parse : String → Result A) (set : A → Config F → Config F)
      (get : Config F → A)
      → ((c : Config F) → set (get c) c ≡ c)
      → (cfg cfg' : Config F) → override fl env name m parse set cfg ≡ ok cfg'
      → (x : A) × From name parse (get cfg) x × (cfg' ≡ set x cfg)
  override-From name m parse set get eta cfg cfg' h = elim (Option-cases (env.lookup_env name)) [
    | inl unset ↦ (get cfg, inl (unset, refl), ground (arith, eta cfg))
    | inr (v, given) ↦ elim (Result-cases (parse v)) [
      | inl (x, parsed) ↦ (x, inr (v, given, parsed), ground arith)
      | inr (e, failed) ↦ absurd (ground arith)
    ]
  ]

  then_override_ok :
      (r : Result (Config F)) (f : Config F → Result (Config F)) {c : Config F}
      → then_override fl env r f ≡ ok c
      → (b : Config F) × (r ≡ ok b) × (f b ≡ ok c)
  then_override_ok (ok b) f h = (b, refl, h)
  then_override_ok (err e) f h = cc

  -- Every field of the result of `loadFromEnv` is accounted for.
  load_from_env-Overrides :
      (base cfg : Config F) → load_from_env fl env base ≡ ok cfg → Overrides base cfg
  unfolding load_from_env
  load_from_env-Overrides base cfg h =
      let (c6, h6, s7) = then_override_ok _ _ h in
      let (c5, h5, s6) = then_override_ok _ _ h6 in
      let (c4, h4, s5) = then_override_ok _ _ h5 in
      let (c3, h3, s4) = then_override_ok _ _ h4 in
      let (c2, h2, s3) = then_override_ok _ _ h3 in
      let (c1, s1, s2) = then_override_ok _ _ h2 in
      let (x1, f1, e1) =
        override-From "CPU_THRESHOLD" "ошибка чтения CPU_THRESHOLD из окружения" env.parse_float
          (λ v c. record c { cpu_threshold = v }) (λ c. c.cpu_threshold) (λ c. refl) base c1 s1 in
      let (x2, f2, e2) =
        override-From "MEM_THRESHOLD" "ошибка чтения MEM_THRESHOLD из окружения" env.parse_float
          (λ v c. record c { mem_threshold = v }) (λ c. c.mem_threshold) (λ c. refl) c1 c2 s2 in
      let (x3, f3, e3) =
        override-From "TRIGGER_COUNT" "ошибка чтения TRIGGER_COUNT из окружения" env.atoi
          (λ v c. record c { trigger_count = v }) (λ c. c.trigger_count) (λ c. refl) c2 c3 s3 in
      let (x4, f4, e4) =
        override-From "RESOLVE_COUNT" "ошибка чтения RESOLVE_COUNT из окружения" env.atoi
          (λ v c. record c { resolve_count = v }) (λ c. c.resolve_count) (λ c. refl) c3 c4 s4 in
      let (x5, f5, e5) =
        override-From "SLACK_ENABLED" "ошибка чтения SLACK_ENABLED из окружения" env.parse_bool
          (λ v c. record c { slack_enabled = v }) (λ c. c.slack_enabled) (λ c. refl) c4 c5 s5 in
      let (x6, f6, e6) =
        override-From "PPROF_ENABLED" "ошибка чтения PPROF_ENABLED из окружения" env.parse_bool
          (λ v c. record c { pprof_enabled = v }) (λ c. c.pprof_enabled) (λ c. refl) c5 c6 s6 in
      let (x7, f7, e7) =
        override-From "SLACK_URL" "" ok (λ v c. record c { slack_url = v }) (λ c. c.slack_url)
          (λ c. refl) c6 cfg s7 in
      let p1 = e1 in
      let p2 = e2 ∙ ap (λ (c : Config F). record c { mem_threshold = x2 }) p1 in
      let p3 = e3 ∙ ap (λ (c : Config F). record c { trigger_count = x3 }) p2 in
      let p4 = e4 ∙ ap (λ (c : Config F). record c { resolve_count = x4 }) p3 in
      let p5 = e5 ∙ ap (λ (c : Config F). record c { slack_enabled = x5 }) p4 in
      let p6 = e6 ∙ ap (λ (c : Config F). record c { pprof_enabled = x6 }) p5 in
      let p7 = e7 ∙ ap (λ (c : Config F). record c { slack_url = x7 }) p6 in
      record {
        cpu_threshold =
            subst₂ (From "CPU_THRESHOLD" env.parse_float) refl
              (ap (λ (c : Config F). c.cpu_threshold) (sym p7)) f1;
        mem_threshold =
            subst₂ (From "MEM_THRESHOLD" env.parse_float)
              (ap (λ (c : Config F). c.mem_threshold) p1)
              (ap (λ (c : Config F). c.mem_threshold) (sym p7)) f2;
        trigger_count =
            subst₂ (From "TRIGGER_COUNT" env.atoi) (ap (λ (c : Config F). c.trigger_count) p2)
              (ap (λ (c : Config F). c.trigger_count) (sym p7)) f3;
        resolve_count =
            subst₂ (From "RESOLVE_COUNT" env.atoi) (ap (λ (c : Config F). c.resolve_count) p3)
              (ap (λ (c : Config F). c.resolve_count) (sym p7)) f4;
        slack_enabled =
            subst₂ (From "SLACK_ENABLED" env.parse_bool) (ap (λ (c : Config F). c.slack_enabled) p4)
              (ap (λ (c : Config F). c.slack_enabled) (sym p7)) f5;
        pprof_enabled =
            subst₂ (From "PPROF_ENABLED" env.parse_bool) (ap (λ (c : Config F). c.pprof_enabled) p5)
              (ap (λ (c : Config F). c.pprof_enabled) (sym p7)) f6;
        slack_url =
            subst₂ (From "SLACK_URL" ok) (ap (λ (c : Config F). c.slack_url) p6)
              (ap (λ (c : Config F). c.slack_url) (sym p7)) f7;
      }

  -- The configuration that the environment is laid over: the file's, or the default if there is no
  -- file.
  abbrev pub Origin : String → env.Fs → Config F → Type 0
  Origin path s base =
      ((text : String) × ((env.read_file path s).0 ≡ ok text)
        × (env.unmarshal text (default_config fl env) ≡ ok base))
      ⊎ ((e : Error) × ((env.read_file path s).0 ≡ err e)
          × (errors_is e not_exist ≡ true)
          × (base ≡ default_config fl env))

  finish_load_ok :
      (base cfg : Config F)
      → finish_load fl env base ≡ ok cfg
      → Overrides base cfg × (validate fl env cfg ≡ none)
  finish_load_ok base cfg h = elim (Result-cases (load_from_env fl env base)) [
    | inl (c, loaded) ↦ elim (Option-cases (validate fl env c)) [
      | inl valid ↦
          let same : c ≡ cfg = ground arith in
          (load_from_env-Overrides base cfg (loaded ∙ ap ok same), rw (← same) valid)
      | inr (e, refused) ↦ absurd (ground arith)
    ]
    | inr (e, failed) ↦ absurd (ground arith)
  ]

  -- What `Load` finishes with, on the way to a result.
  load-Origin :
      (path : String) (s : env.Fs) {cfg : Config F}
      → (load fl env path s).0 ≡ ok cfg
      → (base : Config F) × Origin path s base × (finish_load fl env base ≡ ok cfg)
  unfolding load load_from_yaml
  load-Origin path s h = elim (Result-cases (env.read_file path s).0) [
    | inl (text, read) ↦ elim (Result-cases (env.unmarshal text (default_config fl env))) [
      | inl (base, parsed) ↦ (base, inl (text, read, parsed), ground arith)
      | inr (e, failed) ↦ absurd (ground arith)
    ]
    | inr (e, failed) ↦ elim (Bool-cases (errors_is e not_exist)) [
      | inl missing ↦ (default_config fl env, inr (e, failed, missing, refl), ground arith)
      | inr other ↦ absurd (ground arith)
    ]
  ]

  -- A configuration that `Load` returns passes `Validate`; each of its values is its environment
  -- variable's if that is set, and else that of the base, which is the file laid over the
  -- defaults, or the defaults if the file does not exist.
  pub load_ok :
      (path : String) (s : env.Fs) {cfg : Config F}
      → (load fl env path s).0 ≡ ok cfg
      → (base : Config F) × Origin path s base × (Overrides base cfg × (validate fl env cfg ≡ none))
  load_ok path s h =
      let (base, origin, finished) = load-Origin path s h in
      (base, origin, finish_load_ok base _ finished)

  -- If reading the configuration file fails because it does not exist (an error that is not also
  -- `ErrInvalidYAML`), and the defaults can be encoded and written, `Load` has written them to
  -- that path, and its result is that of laying the environment over the defaults and validating.
  load_missing_file :
      (path : String) {s s' s'' : env.Fs} {e : Error} {text : String}
      → env.read_file path s ≡ (err e, s')
      → errors_is e not_exist ≡ true
      → errors_is e invalid_yaml ≡ false
      → env.marshal (default_config fl env) ≡ ok text
      → env.write_file path text s' ≡ (ok tt, s'')
      → load fl env path s ≡ (finish_load fl env (default_config fl env), s'')
  unfolding load load_from_yaml save_to_yaml
  load_missing_file path r m n t w = ground arith
