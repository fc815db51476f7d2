-- ===== src/Tests/Settings.antt =====
-- Configurations: validation, loading and updates.
use server_watch.Base.{◌≡◌, refl, ◌↔◌, inr, none, some, str_eq, if◌then◌else◌, ok, arith}
use server_watch.Config.{
  Config, ConfigEnv, validate, default_config, load, load_from_yaml, load_from_env,
}
use server_watch.Config.Validation.{IsValid, validate_iff}
use server_watch.Config.Loading.{Origin, Overrides, load_ok}
use server_watch.Tests.Stores.{Number, numbers}
use server_watch.Tests.Rounds.{env, defaults}

validate_iff_example : (validate numbers env defaults ≡ none) ↔ IsValid numbers env defaults
validate_iff_example = validate_iff numbers env defaults

defaults-IsValid : IsValid numbers env defaults
defaults-IsValid = record {
  cpu_low = refl;
  cpu_high = refl;
  mem_low = refl;
  mem_high = refl;
  trigger = λ h. omega arith;
  resolve = λ h. omega arith;
  slack = inr (refl, refl);
}

-- One variable is set.
abbrev with_variable : ConfigEnv Number
with_variable = record env {
  lookup_env = λ name. if str_eq name "CPU_THRESHOLD" then some "70" else none;
  parse_float = λ text. ok (some 70);
}

abbrev loaded : Config Number
loaded = record defaults { cpu_threshold = some 70 }

load_ok_example :
    (base : Config Number) × Origin numbers with_variable "config.yaml" tt base
    × (Overrides numbers with_variable base loaded × (validate numbers with_variable loaded ≡ none))
unfolding load load_from_yaml load_from_env validate default_config
load_ok_example = load_ok numbers with_variable "config.yaml" tt {cfg = loaded} refl
