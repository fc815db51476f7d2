-- ===== src/System/Settings/Update.antt =====
-- What `UpdateConfig` changes.
use server_watch.Base.{
  ◌≡◌, refl, Option, none, some, inl, inr, true, Error, err, errors_is, invalid_config, arith,
  Option-cases,
}
use server_watch.Config.{Config, validate, save_to_yaml}
use server_watch.Config.Validation.{IsValid, validate_iff, validate-invalid_config}
use server_watch.System.Interfaces.{Deps}
use server_watch.System.{World}
use server_watch.System.Settings.{ConfigUpdate, given, apply_update, update_config, get_config}

-- A field of the update: one that is left out keeps the value.
abbrev pub Takes : {A : Type 0} → Option A → A → A → Type 0
Takes none before after = after ≡ before
Takes (some x) before after = after ≡ x

given-Takes : {A : Type 0} (field : Option A) (before : A) → Takes field before (given field before)
given-Takes none before = refl
given-Takes (some x) before = refl

-- The configuration with the fields of the update.
pub record IsUpdated {F : Type 0} (u : ConfigUpdate F) (before after : Config F) : Type 0 where
  pub cpu_threshold : Takes u.cpu_threshold before.cpu_threshold after.cpu_threshold
  pub mem_threshold : Takes u.mem_threshold before.mem_threshold after.mem_threshold
  pub trigger_count : Takes u.trigger_count before.trigger_count after.trigger_count
  pub resolve_count : Takes u.resolve_count before.resolve_count after.resolve_count
  pub slack_enabled : Takes u.slack_enabled before.slack_enabled after.slack_enabled
  pub slack_url : Takes u.slack_url before.slack_url after.slack_url
  pub pprof_enabled : after.pprof_enabled ≡ before.pprof_enabled

module _ {F : Type 0} (d : Deps F) where
  pub apply_update-IsUpdated :
      (u : ConfigUpdate F) (cfg : Config F) → IsUpdated u cfg (apply_update d u cfg)
  unfolding apply_update
  apply_update-IsUpdated u cfg = record {
    cpu_threshold = given-Takes u.cpu_threshold cfg.cpu_threshold;
    mem_threshold = given-Takes u.mem_threshold cfg.mem_threshold;
    trigger_count = given-Takes u.trigger_count cfg.trigger_count;
    resolve_count = given-Takes u.resolve_count cfg.resolve_count;
    slack_enabled = given-Takes u.slack_enabled cfg.slack_enabled;
    slack_url = given-Takes u.slack_url cfg.slack_url;
    pprof_enabled = refl;
  }

  -- If the configuration with the update applied is not valid, `UpdateConfig` returns
  -- `ErrInvalidConfig` and changes nothing.
  pub update_config_refused :
      (u : ConfigUpdate F) (w : World d)
      → ¬ IsValid d.floats d.env (apply_update d u w.config)
      → (e : Error) × (update_config d u w ≡ (err e, w)) × (errors_is e invalid_config ≡ true)
  unfolding update_config
  update_config_refused u w bad =
      elim (Option-cases (validate d.floats d.env (apply_update d u w.config))) [
        | inl fine ↦ absurd (bad ((validate_iff d.floats d.env _).0 fine))
        | inr (e, refused) ↦ (
          e,
          ground arith,
          validate-invalid_config d.floats d.env (apply_update d u w.config) refused,
        )
      ]

  -- If the configuration with the update applied is valid, it is in force after `UpdateConfig`,
  -- also if the file cannot be written; the result is that of `SaveToYAML`, and nothing but the
  -- configuration and the files changes.
  pub update_config_accepted :
      (u : ConfigUpdate F) (w : World d)
      → IsValid d.floats d.env (apply_update d u w.config)
      → let (r, s) =
          save_to_yaml d.floats d.env w.config_path (apply_update d u w.config) w.files in
        update_config d u w ≡ (r, record w { config = apply_update d u w.config; files = s })
  unfolding update_config
  update_config_accepted u w good =
      let fine = (validate_iff d.floats d.env (apply_update d u w.config)).1 good in ground arith

  -- If the configuration is valid, the one that `GetConfig` returns after any `UpdateConfig` is
  -- valid.
  pub update_config-IsValid :
      (u : ConfigUpdate F) (w : World d)
      → IsValid d.floats d.env w.config
      → IsValid d.floats d.env (get_config d (update_config d u w).1)
  unfolding update_config get_config
  update_config-IsValid u w good =
      elim (Option-cases (validate d.floats d.env (apply_update d u w.config))) [
        | inl fine ↦
            rw (get_config, fine) ((validate_iff d.floats d.env (apply_update d u w.config)).0 fine)
        | inr (e, refused) ↦ rw (get_config, refused) good
      ]
