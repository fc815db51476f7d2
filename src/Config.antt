-- ===== src/Config.antt =====
-- internal/config/config.go. The file system, the YAML codec, the environment, `strconv` and
-- `net/url` are the parameter `env`.
pub mod Validation
pub mod Loading
use server_watch.Base.{
  ℕ, Bool, true, false, not, ◌&&◌, ◌||◌, Option, none, some, String, str_eq, Error, sentinel,
  not_exist, invalid_yaml, invalid_config, wrap, wrap_with, errors_is, Result, ok, err, Action,
  pure, raise, wrapping, ◌>>=◌, ◌>>◌, if◌then◌else◌,
}
use server_watch.Base.Int.{ℤ, pos, leb_ℤ}
use server_watch.Model.{Floats}

pub record Config (F : Type 0) : Type 0 where
  pub cpu_threshold : F
  pub mem_threshold : F
  pub trigger_count : ℤ
  pub resolve_count : ℤ
  pub slack_enabled : Bool
  pub slack_url : String
  pub pprof_enabled : Bool

-- `url.Parse` gives the scheme and the host; `unmarshal` writes what the text holds into a
-- configuration; `lookup_env` is `os.LookupEnv`.
pub record ConfigEnv (F : Type 0) : Type 1 where
  pub Fs : Type 0
  pub read_file : String → Action Fs String
  pub write_file : String → String → Action Fs (Unit {0})
  pub marshal : Config F → Result String
  pub unmarshal : String → Config F → Result (Config F)
  pub lookup_env : String → Option String
  pub parse_float : String → Result F
  pub atoi : String → Result ℤ
  pub parse_bool : String → Result Bool
  pub parse_url : String → Option (String × String)

module _ {F : Type 0} (fl : Floats F) (env : ConfigEnv F) where
  abbrev pub validate_url : String → Bool
  validate_url value = elim (env.parse_url value) [
    | none ↦ false
    | some (scheme, host) ↦
        if not (str_eq scheme "http") && not (str_eq scheme "https")
        then false
        else if str_eq host ""
        then false
        else true
  ]

  abbrev pub invalid : String → Option Error
  invalid m = some (wrap m (sentinel invalid_config))

  abbrev pub out_of_range : F → Bool
  out_of_range x = fl.lt x (fl.of_ℕ 0) || fl.lt (fl.of_ℕ 100) x

  unfoldable pub validate : Config F → Option Error
  validate cfg =
      if out_of_range cfg.cpu_threshold
      then invalid "значение CPUThreshold должно быть от 0 до 100"
      else if out_of_range cfg.mem_threshold
      then invalid "значение MemThreshold должно быть от 0 до 100"
      else if leb_ℤ cfg.trigger_count (pos 0)
      then invalid "значение TriggerCount должно быть >0"
      else if leb_ℤ cfg.resolve_count (pos 0)
      then invalid "значение ResolveCount должно быть >0"
      else (let skip_validation = str_eq cfg.slack_url "" && not cfg.slack_enabled in
          if not (validate_url cfg.slack_url) && not skip_validation
          then invalid "значение SlackURL некорректно"
          else none)

  unfoldable pub default_config : Config F
  default_config = record {
    cpu_threshold = fl.of_ℕ 80;
    mem_threshold = fl.of_ℕ 90;
    trigger_count = pos 3;
    resolve_count = pos 3;
    slack_enabled = false;
    slack_url = "";
    pprof_enabled = false;
  }

  -- `if exists { val, err := parse(value); …; cfg.f = val }` for one variable.
  abbrev pub override :
      {A : Type 0}
      → String
      → String
      → (String → Result A)
      → (A → Config F → Config F)
      → Config F
      → Result (Config F)
  override name m parse set cfg = elim (env.lookup_env name) [
    | none ↦ ok cfg
    | some value ↦ elim (parse value) [ ok v ↦ ok (set v cfg) | err e ↦ err (wrap m e) ]
  ]

  abbrev pub then_override : Result (Config F) → (Config F → Result (Config F)) → Result (Config F)
  then_override (ok cfg) f = f cfg
  then_override (err e) f = err e

  unfoldable pub load_from_env : Config F → Result (Config F)
  load_from_env cfg =
      let cfg_1 =
        override "CPU_THRESHOLD" "ошибка чтения CPU_THRESHOLD из окружения" env.parse_float
          (λ v c. record c { cpu_threshold = v }) cfg in
      let cfg_2 = then_override cfg_1 (
        override "MEM_THRESHOLD" "ошибка чтения MEM_THRESHOLD из окружения" env.parse_float
          (λ v c. record c { mem_threshold = v })) in
      let cfg_3 = then_override cfg_2 (
        override "TRIGGER_COUNT" "ошибка чтения TRIGGER_COUNT из окружения" env.atoi
          (λ v c. record c { trigger_count = v })) in
      let cfg_4 = then_override cfg_3 (
        override "RESOLVE_COUNT" "ошибка чтения RESOLVE_COUNT из окружения" env.atoi
          (λ v c. record c { resolve_count = v })) in
      let cfg_5 = then_override cfg_4 (
        override "SLACK_ENABLED" "ошибка чтения SLACK_ENABLED из окружения" env.parse_bool
          (λ v c. record c { slack_enabled = v })) in
      let cfg_6 = then_override cfg_5 (
        override "PPROF_ENABLED" "ошибка чтения PPROF_ENABLED из окружения" env.parse_bool
          (λ v c. record c { pprof_enabled = v })) in
      then_override cfg_6 (override "SLACK_URL" "" ok (λ v c. record c { slack_url = v }))

  unfoldable pub load_from_yaml : String → Config F → Action env.Fs (Config F)
  load_from_yaml path cfg = do
    text ← wrapping "не удалось открыть файл конфигурации" (env.read_file path)
    elim (env.unmarshal text cfg) [
      | ok cfg' ↦ pure cfg'
      | err e ↦ raise (wrap_with "некорректный YAML" e (sentinel invalid_yaml))
    ]

  unfoldable pub save_to_yaml : String → Config F → Action env.Fs (Unit {0})
  save_to_yaml path cfg s = elim (env.marshal cfg) [
    | err e ↦ (err (wrap "не удалось закодировать конфигурацию в yaml" e), s)
    | ok text ↦ wrapping "не удалось записать конфигурацию" (env.write_file path text) s
  ]

  -- What `Load` does with the outcome of `loadFromYAML`: a missing file is created.
  abbrev pub after_yaml : String → Result (Config F) → Action env.Fs (Config F)
  after_yaml path (ok cfg) = pure cfg
  after_yaml path (err e) =
      if errors_is e invalid_yaml
      then raise e
      else if errors_is e not_exist
      then (do save_to_yaml path default_config; pure default_config)
      else raise (wrap "не удалось загрузить конфиг из файла" e)

  -- The end of `Load`: the environment, then validation.
  abbrev pub finish_load : Config F → Result (Config F)
  finish_load cfg = elim (load_from_env cfg) [
    | err e ↦ err (wrap "не удалось прочитать переменную окружения" e)
    | ok cfg' ↦ elim (validate cfg') [
      | some e ↦ err (wrap "некорректная конфигурация" e)
      | none ↦ ok cfg'
    ]
  ]

  unfoldable pub load : String → Action env.Fs (Config F)
  load path s =
      let (loaded, s') = load_from_yaml path default_config s in
      let (cfg, s'') = after_yaml path loaded s' in
      elim cfg [ ok c ↦ (finish_load c, s'') | err e ↦ (err e, s'') ]
