-- ===== src/System/Settings.antt =====
-- internal/system/config.go, health.go and metrics.go: the operations that the HTTP handlers call.
pub mod Update
pub mod Ignored
use server_watch.Base.{
  ℕ, Bool, true, false, Option, none, some, List, String, Error, Result, ok, err, Action, wrapping,
  if◌then◌else◌,
}
use server_watch.Base.Int.{ℤ}
use server_watch.Model.{Time, Metrics, Alert}
use server_watch.Config.{Config, validate, save_to_yaml}
use server_watch.System.Interfaces.{Deps}
use server_watch.System.{World, on_repo, on_cache}

-- `nil` is `none`.
pub record ConfigUpdate (F : Type 0) : Type 0 where
  pub cpu_threshold : Option F
  pub mem_threshold : Option F
  pub trigger_count : Option ℤ
  pub resolve_count : Option ℤ
  pub slack_enabled : Option Bool
  pub slack_url : Option String

-- `if p != nil { x = *p }`
abbrev pub given : {A : Type 0} → Option A → A → A
given none x = x
given (some y) x = y

module _ {F : Type 0} (d : Deps F) where
  unfoldable pub apply_update : ConfigUpdate F → Config F → Config F
  apply_update u c = record c {
    cpu_threshold = given u.cpu_threshold c.cpu_threshold;
    mem_threshold = given u.mem_threshold c.mem_threshold;
    trigger_count = given u.trigger_count c.trigger_count;
    resolve_count = given u.resolve_count c.resolve_count;
    slack_enabled = given u.slack_enabled c.slack_enabled;
    slack_url = given u.slack_url c.slack_url;
  }

  abbrev pub on_files : {A : Type 0} → Action d.env.Fs A → Action (World d) A
  on_files act w = let (r, s) = act w.files in (r, record w { files = s })

  -- The configuration is applied in memory before it is written to the file.
  unfoldable pub update_config : ConfigUpdate F → Action (World d) (Unit {0})
  unfolding apply_update
  update_config u w =
      let cfg = apply_update u w.config in
      elim (validate d.floats d.env cfg) [
        | some e ↦ (err e, w)
        | none ↦
            on_files (save_to_yaml d.floats d.env w.config_path cfg) (record w { config = cfg })
      ]

  unfoldable pub get_config : World d → Config F
  get_config w = w.config

  unfoldable pub get_health : World d → Time × Option Error
  get_health w = (w.last_success, w.last_error)

  -- The cached metrics if the cache has them, and else those in memory.
  unfoldable pub get_metrics : World d → Metrics F × World d
  get_metrics w =
      if d.has_cache
      then (let (r, s) = d.cache.get_metrics w.cache in
          elim r [
            | ok m ↦ (m, record w { cache = s })
            | err e ↦ (w.metrics, record w { cache = s })
          ])
      else (w.metrics, w)

  unfoldable pub get_history : Time → Time → Action (World d) (List (Metrics F))
  get_history from to =
      wrapping "не удалось получить список измерений метрик"
        (on_repo d (d.repository.get_metrics from to))

  unfoldable pub get_alerts : Bool → Action (World d) (List (Alert F))
  get_alerts active_only =
      wrapping "не удалось получить список алертов"
        (on_repo d (d.repository.get_alerts active_only))
