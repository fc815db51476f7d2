-- ===== src/Config/Validation.antt =====
-- Which configurations `Validate` accepts.
use server_watch.Base.{
  ◌≡◌, ◌≢◌, inl, inr, String, Option-cases, ◌↔◌, ◌⊎◌, true, false, none, some, str_eq_iff, Error,
  invalid_config, errors_is, arith,
}
use server_watch.Base.Int.{pos, ◌≤ℤ◌}
use server_watch.Model.{Floats}
use server_watch.Config.{Config, ConfigEnv, validate, validate_url}

module _ {F : Type 0} (fl : Floats F) (env : ConfigEnv F) where
  -- An http or https address with a host.
  pub record HasHost (url : String) : Type 0 where
    pub scheme : String
    pub host : String
    pub parsed : env.parse_url url ≡ some (scheme, host)
    pub scheme_is : (scheme ≡ "http") ⊎ (scheme ≡ "https")
    pub host_is : host ≢ ""

  validate_url-HasHost : (url : String) → validate_url fl env url ≡ true → HasHost url
  validate_url-HasHost url h = elim (Option-cases (env.parse_url url)) [
    | inl missing ↦ absurd (ground (arith, missing, h))
    | inr ((scheme, host), parsed) ↦ record {
      scheme = scheme;
      host = host;
      parsed = parsed;
      scheme_is = ground (arith, parsed, h, str_eq_iff scheme "http", str_eq_iff scheme "https");
      host_is = ground (arith, parsed, h, str_eq_iff host "");
    }
  ]

  HasHost-validate_url : (url : String) → HasHost url → validate_url fl env url ≡ true
  HasHost-validate_url url h = ground (
    arith,
    h.parsed,
    h.scheme_is,
    h.host_is,
    str_eq_iff h.scheme "http",
    str_eq_iff h.scheme "https",
    str_eq_iff h.host "",
  )

  -- Neither threshold compares below 0 or above 100, the counts are positive, and the address of
  -- the webhook is an http or https address with a host, or empty while Slack is off.
  pub record IsValid (cfg : Config F) : Type 0 where
    pub cpu_low : fl.lt cfg.cpu_threshold (fl.of_ℕ 0) ≡ false
    pub cpu_high : fl.lt (fl.of_ℕ 100) cfg.cpu_threshold ≡ false
    pub mem_low : fl.lt cfg.mem_threshold (fl.of_ℕ 0) ≡ false
    pub mem_high : fl.lt (fl.of_ℕ 100) cfg.mem_threshold ≡ false
    pub trigger : ¬ (cfg.trigger_count ≤ℤ pos 0)
    pub resolve : ¬ (cfg.resolve_count ≤ℤ pos 0)
    pub slack : HasHost cfg.slack_url ⊎ ((cfg.slack_url ≡ "") × (cfg.slack_enabled ≡ false))

  validate-IsValid : (cfg : Config F) → validate fl env cfg ≡ none → IsValid cfg
  unfolding validate
  validate-IsValid cfg h =
      ground (arith, str_eq_iff cfg.slack_url "", validate_url-HasHost cfg.slack_url)

  IsValid-validate : (cfg : Config F) → IsValid cfg → validate fl env cfg ≡ none
  unfolding validate
  IsValid-validate cfg h =
      ground (arith, str_eq_iff cfg.slack_url "", HasHost-validate_url cfg.slack_url)

  -- `Validate` accepts a configuration exactly if neither threshold compares below 0 or above 100,
  -- both counts are positive, and the address is an http or https address with a host, or is empty
  -- while Slack is off.
  pub validate_iff : (cfg : Config F) → (validate fl env cfg ≡ none) ↔ IsValid cfg
  validate_iff cfg = (validate-IsValid cfg, IsValid-validate cfg)

  -- Every refusal of `Validate` is `ErrInvalidConfig`.
  pub validate-invalid_config :
      (cfg : Config F) {e : Error}
      → validate fl env cfg ≡ some e
      → errors_is e invalid_config ≡ true
  unfolding validate
  validate-invalid_config cfg h = ground arith

  -- If `Validate` accepts a configuration, it also accepts the one in which both thresholds are
  -- replaced by a value that compares below nothing and above nothing, as NaN.
  validate_unordered :
      (cfg : Config F) (x : F)
      → ((y : F) → (fl.lt x y ≡ false) × (fl.lt y x ≡ false))
      → validate fl env cfg ≡ none
      → validate fl env (record cfg { cpu_threshold = x; mem_threshold = x }) ≡ none
  validate_unordered cfg x nan h =
      let v = validate-IsValid cfg h in
      IsValid-validate (record cfg { cpu_threshold = x; mem_threshold = x })
        (record {
          cpu_low = (nan _).0;
          cpu_high = (nan _).1;
          mem_low = (nan _).0;
          mem_high = (nan _).1;
          trigger = v.trigger;
          resolve = v.resolve;
          slack = v.slack;
        })
