-- ===== src/System/Announcements.antt =====
-- What a subscriber learns from the notifications that are pushed.
use server_watch.Base.{
  All, All-map, All-append, ◌≡◌, ◌≢◌, refl, sym, ap, ◌∙◌, inl, inr, Bool, true, false, not, Option,
  none, some, List, [], ◌∷◌, ◌++◌, str_eq, str_eq-refl, if◌then◌else◌,
}
use mathlib.Core.List.{foldl, foldl-append}
use server_watch.Model.{
  AlertType, Notification, Time, action_created, action_resolved, alert_type_high_cpu,
  alert_type_high_mem,
}
use server_watch.System.Interfaces.{Deps, RepositoryLaws}
use server_watch.System.{World}
use server_watch.System.Turns.{raised, announcement, Turns}

-- A subscriber to one type keeps whether the alert is active. It expects each notification of that
-- type to say the opposite, and is lost after any other.
abbrev pub follow : {F : Type 0} → AlertType → Option Bool → Notification F → Option Bool
follow t none n = none
follow t (some b) n =
    if str_eq n.kind t
    then (if str_eq n.action (if b then action_resolved else action_created)
        then some (not b)
        else none)
    else some b

abbrev pub told : {F : Type 0} → AlertType → Bool → List (Notification F) → Option Bool
told t b ns = foldl (follow t) (some b) ns

module _ {F : Type 0} (d : Deps F) (laws : RepositoryLaws d.repository) where
  abbrev pub pushes : List (Notification F) → d.queue.St → d.queue.St
  pushes ns q = foldl (λ q' n. (d.queue.push n q').1) q ns

  -- A notification says that an alert was created exactly if its value is above its threshold.
  abbrev pub IsHonest : Notification F → Type 0
  IsHonest n =
      n.action ≡ (if d.floats.lt n.threshold n.value then action_created else action_resolved)

  abbrev pub Says : AlertType → F → F → Notification F → Type 0
  Says t value threshold n =
      (n.kind ≡ t) × (n.value ≡ value) × (n.threshold ≡ threshold) × IsHonest n

  -- Between two states, notifications that fulfil `P` went out, from which a subscriber to either
  -- type learns whether its alert is active.
  pub record Notified (P : Notification F → Type 0) (w w' : World d) : Type 0 where
    pub news : List (Notification F)
    pub pushed : w'.queue ≡ pushes news w.queue
    pub cpu :
        told alert_type_high_cpu (raised (laws.active w.repo alert_type_high_cpu)) news
        ≡ some (raised (laws.active w'.repo alert_type_high_cpu))
    pub mem :
        told alert_type_high_mem (raised (laws.active w.repo alert_type_high_mem)) news
        ≡ some (raised (laws.active w'.repo alert_type_high_mem))
    pub each : All P news

  -- Nothing went out, and the alerts are as before.
  pub quiet-Notified :
      (P : Notification F → Type 0) (w w' : World d)
      → w'.queue ≡ w.queue
      → ((u : AlertType) → laws.active w'.repo u ≡ laws.active w.repo u)
      → Notified P w w'
  quiet-Notified P w w' q same = record {
    news = [];
    pushed = q;
    cpu = ap (λ a. some (raised a)) (sym (same alert_type_high_cpu));
    mem = ap (λ a. some (raised a)) (sym (same alert_type_high_mem));
    each = tt;
  }

  told-append :
      (t : AlertType) (a b c : Bool) (ns ms : List (Notification F))
      → told t a ns ≡ some b
      → told t b ms ≡ some c
      → told t a (ns ++ ms) ≡ some c
  told-append t a b c ns ms h k = foldl-append (follow t) (some a) ns ms ∙ rw h k

  pub Notified-weaken :
      (P Q : Notification F → Type 0)
      → ((n : Notification F) → P n → Q n)
      → (w w' : World d) → Notified P w w'
      → Notified Q w w'
  Notified-weaken P Q f w w' h = record {
    news = h.news;
    pushed = h.pushed;
    cpu = h.cpu;
    mem = h.mem;
    each = All-map P Q h.news f h.each;
  }

  pub Notified-trans :
      (P : Notification F → Type 0) (u v w : World d)
      → Notified P u v
      → Notified P v w
      → Notified P u w
  Notified-trans P u v w h k = record {
    news = h.news ++ k.news;
    pushed =
        k.pushed
        ∙ ap (pushes k.news) h.pushed
        ∙ sym (foldl-append (λ q' n. (d.queue.push n q').1) u.queue h.news k.news);
    cpu = told-append alert_type_high_cpu _ _ _ h.news k.news h.cpu k.cpu;
    mem = told-append alert_type_high_mem _ _ _ h.news k.news h.mem k.mem;
    each = All-append P h.news k.news h.each k.each;
  }

  told_change :
      (t : AlertType) (value threshold : F) (before after : Bool) (at : Time)
      → before ≢ after
      → told t before (announcement d laws t value threshold after at ∷ []) ≡ some after
  told_change t value threshold true true at differs = absurd (differs refl)
  told_change t value threshold true false at differs = rw (str_eq-refl t)
  told_change t value threshold false true at differs = rw (str_eq-refl t)
  told_change t value threshold false false at differs = absurd (differs refl)

  -- The news of one turn.
  abbrev News : (Notification F → Type 0) → AlertType → Bool → Bool → World d → World d → Type 0
  News P t before after w w' =
      (ns : List (Notification F)) × (w'.queue ≡ pushes ns w.queue)
      × (told t before ns ≡ some after)
      × ((u : AlertType) (b : Bool) → str_eq t u ≡ false → told u b ns ≡ some b)
      × All P ns

  Turns-News :
      (t : AlertType) (value threshold : F) (after : Bool) (w w' : World d)
      → Turns d laws t value threshold after w w'
      → (raised (laws.active w.repo t) ≢ after → after ≡ d.floats.lt threshold value)
      → News (Says t value threshold) t (raised (laws.active w.repo t)) after w w'
  Turns-News t value threshold after w w' turn why = elim turn.sent [
    | inl (same, q) ↦ ([], q, ap some same, λ u b other. refl, tt)
    | inr (differs, q) ↦ (
      announcement d laws t value threshold after turn.sent_at ∷ [],
      q,
      told_change t value threshold _ after turn.sent_at differs,
      λ u b other. rw other,
      (
        (refl, refl, refl, ap (λ b. if b then action_created else action_resolved) (why differs)),
        tt,
      ),
    )
  ]

  pub cpu_turn-Notified :
      (value threshold : F) (after : Bool) (w w' : World d)
      → Turns d laws alert_type_high_cpu value threshold after w w'
      → (raised (laws.active w.repo alert_type_high_cpu) ≢ after
          → after ≡ d.floats.lt threshold value)
      → Notified (Says alert_type_high_cpu value threshold) w w'
  cpu_turn-Notified value threshold after w w' turn why =
      let (ns, q, self, other, each) =
        Turns-News alert_type_high_cpu value threshold after w w' turn why in
      record {
        news = ns;
        pushed = q;
        cpu = self ∙ ap some (sym turn.active_self);
        mem =
            other alert_type_high_mem _ refl
            ∙ ap (λ a. some (raised a)) (sym (turn.active_other alert_type_high_mem refl));
        each = each;
      }

  pub mem_turn-Notified :
      (value threshold : F) (after : Bool) (w w' : World d)
      → Turns d laws alert_type_high_mem value threshold after w w'
      → (raised (laws.active w.repo alert_type_high_mem) ≢ after
          → after ≡ d.floats.lt threshold value)
      → Notified (Says alert_type_high_mem value threshold) w w'
  mem_turn-Notified value threshold after w w' turn why =
      let (ns, q, self, other, each) =
        Turns-News alert_type_high_mem value threshold after w w' turn why in
      record {
        news = ns;
        pushed = q;
        cpu =
            other alert_type_high_cpu _ refl
            ∙ ap (λ a. some (raised a)) (sym (turn.active_other alert_type_high_cpu refl));
        mem = self ∙ ap some (sym turn.active_self);
        each = each;
      }
