-- ===== src/System/Turns.antt =====
-- One turn of an alert: what its creation and its resolution do to the active alerts, the gauges
-- and the queue.
use server_watch.Base.{
  suc, ◌≡◌, ◌≢◌, refl, ◌⊎◌, inl, inr, Bool, true, false, Option, none, some, str_eq, str_eq-refl,
  ok, ◌∙◌, arith, if◌then◌else◌,
}
use server_watch.Base.Int.{ℤ, inc, dec}
use server_watch.Model.{
  AlertType, Alert, Notification, Time, valid_alert_type, action_created, action_resolved,
}
use server_watch.System.Interfaces.{Deps, RepositoryLaws}
use server_watch.System.{World, create_alert, resolve_alert}

abbrev pub raised : {A : Type 0} → Option A → Bool
raised none = false
raised (some _) = true

-- The gauge follows a change of one alert.
abbrev pub moved : Bool → Bool → ℤ → ℤ
moved false true n = inc n
moved true false n = dec n
moved _ _ n = n

moved_same : (b : Bool) (n : ℤ) → n ≡ moved b b n
moved_same true n = refl
moved_same false n = refl

module _ {F : Type 0} (d : Deps F) (laws : RepositoryLaws d.repository) where
  open laws use {active, Ready}

  -- The notification of a change of the alert `t` to `now_active`.
  abbrev pub announcement : AlertType → F → F → Bool → Time → Notification F
  announcement t value threshold now_active at = record {
    kind = t;
    action = if now_active then action_created else action_resolved;
    value = value;
    threshold = threshold;
    timestamp = at;
  }

  -- What one type's turn does: whether its alert is active changes from what it was to `after`;
  -- the other type's stays. The gauge moves with it, one notification goes out if it changed, and
  -- none otherwise. The rest of the system is as before.
  pub record Turns (t : AlertType) (value threshold : F) (after : Bool) (w w' : World d)
      : Type 0 where
    pub ready : Ready w'.repo
    pub active_self : raised (active w'.repo t) ≡ after
    pub active_other : (u : AlertType) → str_eq u t ≡ false → active w'.repo u ≡ active w.repo u
    pub gauge :
        w'.gauges.alerts_active_total
        ≡ moved (raised (active w.repo t)) after w.gauges.alerts_active_total
    pub sent_at : Time
    pub sent :
        (raised (active w.repo t) ≡ after) × (w'.queue ≡ w.queue)
        ⊎ (raised (active w.repo t) ≢ after)
          × (w'.queue ≡ (d.queue.push (announcement t value threshold after sent_at) w.queue).1)
    pub alerts : w'.alerts ≡ w.alerts
    pub last_error : w'.last_error ≡ w.last_error
    pub last_success : w'.last_success ≡ w.last_success
    pub metrics : w'.metrics ≡ w.metrics
    pub config : w'.config ≡ w.config

  pub create_alert-Turns :
      (t : AlertType) (value threshold : F) (w : World d)
      → valid_alert_type t ≡ true
      → Ready w.repo
      → active w.repo t ≡ none
      → (w' : World d) × (create_alert d t value threshold w ≡ (ok tt, w'))
        × Turns t value threshold true w w'
  unfolding create_alert
  create_alert-Turns t value threshold w v up quiet =
      let at : Time = d.now w.clock in
      let a : Alert F = record {
        id = 0;
        kind = t;
        timestamp = at;
        threshold = threshold;
        resolved = false;
        resolved_at = none;
        value = value;
      } in
      let (id, s', saved, up', act) = laws.save_alert_law a w.repo v refl quiet up in
      let w' : World d = record w {
        repo = s';
        clock = suc w.clock;
        gauges = record w.gauges {
          alerts_total = suc w.gauges.alerts_total;
          alerts_active_total = inc w.gauges.alerts_active_total;
        };
        queue = (d.queue.push (announcement t value threshold true at) w.queue).1;
      } in
      (
        w',
        ground arith,
        record {
          ready = up';
          active_self = rw (act t, str_eq-refl t);
          active_other = λ u ne. rw (act u, ne);
          gauge = rw quiet;
          sent_at = at;
          sent = inr (rw quiet (λ e. cc), refl);
          alerts = refl;
          last_error = refl;
          last_success = refl;
          metrics = refl;
          config = refl;
        },
      )

  pub resolve_alert-Turns :
      (t : AlertType) (value threshold : F) (a : Alert F) (w : World d)
      → valid_alert_type t ≡ true
      → Ready w.repo
      → active w.repo t ≡ some a
      → (w' : World d) × (resolve_alert d a t value threshold w ≡ (ok tt, w'))
        × Turns t value threshold false w w'
  unfolding resolve_alert
  resolve_alert-Turns t value threshold a w v up raised_before =
      let at : Time = d.now (suc w.clock) in
      let (s', saved, up', act) =
        laws.resolve_alert_law t a (d.now w.clock) w.repo v raised_before up in
      let w' : World d = record w {
        repo = s';
        clock = suc (suc w.clock);
        gauges = record w.gauges { alerts_active_total = dec w.gauges.alerts_active_total };
        queue = (d.queue.push (announcement t value threshold false at) w.queue).1;
      } in
      (
        w',
        ground arith,
        record {
          ready = up';
          active_self = rw (act t, str_eq-refl t);
          active_other = λ u ne. rw (act u, ne);
          gauge = rw raised_before;
          sent_at = at;
          sent = inr (rw raised_before (λ e. cc), refl);
          alerts = refl;
          last_error = refl;
          last_success = refl;
          metrics = refl;
          config = refl;
        },
      )

  -- Nothing but a read of the repository happened.
  pub read_only-Turns :
      (t : AlertType) (value threshold : F) (w : World d) (s' : d.repository.St)
      → Ready s'
      → ((u : AlertType) → active s' u ≡ active w.repo u)
      → Turns t value threshold (raised (active w.repo t)) w (record w { repo = s' })
  read_only-Turns t value threshold w s' up same = record {
    ready = up;
    active_self = rw (same t);
    active_other = λ u ne. same u;
    gauge = moved_same (raised (active w.repo t)) w.gauges.alerts_active_total;
    sent_at = 0;
    sent = inl (refl, refl);
    alerts = refl;
    last_error = refl;
    last_success = refl;
    metrics = refl;
    config = refl;
  }

  -- A read of the repository before a turn changes nothing about it.
  pub after_read-Turns :
      (t : AlertType) (value threshold : F) (after : Bool) (w w' : World d) (s : d.repository.St)
      → ((u : AlertType) → active s u ≡ active w.repo u)
      → Turns t value threshold after (record w { repo = s }) w'
      → Turns t value threshold after w w'
  after_read-Turns t value threshold after w w' s same turn = record {
    ready = turn.ready;
    active_self = turn.active_self;
    active_other = λ u ne. turn.active_other u ne ∙ same u;
    gauge = rw (← same t) turn.gauge;
    sent_at = turn.sent_at;
    sent = rw (← same t) turn.sent;
    alerts = turn.alerts;
    last_error = turn.last_error;
    last_success = turn.last_success;
    metrics = turn.metrics;
    config = turn.config;
  }
