-- ===== src/System/Hysteresis.antt =====
-- The alerts over a whole run, and the verdict on the measurements.
pub mod Verdict
pub mod Decision
pub mod Rounds
use server_watch.Base.{
  ℕ, zero, suc, ◌+◌, ◌≡◌, ◌⊎◌, ◌≤◌, ◌<◌, refl, Bool, true, false, ◌&&◌, List, [], ◌∷◌, length, map,
  str_eq, leb, if◌then◌else◌, arith, ok, ap, ◌∙◌, sym, Action,
}
use mathlib.Core.List.{reverse, reverse_aux}
use server_watch.Base.Int.{ℤ, pos, leb_ℤ, max_int64}
use server_watch.Model.{
  AlertType, AlertState, Metrics, Notification, condition_high, condition_normal,
  alert_type_high_cpu, alert_type_high_mem,
}
use server_watch.Alerts.Store.{StoreLaws, bump, HasRoom}
use server_watch.System.Interfaces.{Deps, RepositoryLaws}
use server_watch.System.{World, Readings, high_cpu_threshold, high_mem_threshold, collect_metrics}
use server_watch.System.Collector.{run_collector}
use server_watch.System.Alerting.{decide_alert}
use server_watch.System.Collection.{measured, collect_metrics-Collected}
use server_watch.System.Announcements.{Says, Notified}
use server_watch.System.Counting.{IsSteady, is_raised, state_of}
use server_watch.System.Processing.{GaugeMoves}
use server_watch.System.Evaluation.{Collected}
use Verdict.{
  verdict, run_length, condition_name, latest, run_length-le-length, verdict-cons, bump-run_length,
}

module _ {F : Type 0} (d : Deps F) (repo_laws : RepositoryLaws d.repository)
    (store_laws : StoreLaws d.alert_state) where
  -- The readings of one tick: CPU usage, memory, disk.
  abbrev pub Sample : Type 0
  Sample = F × (F × F × F) × (F × F × F)

  abbrev pub readings : Sample → Readings F
  readings (usage, mem, disk) = record { cpu = ok usage; mem = ok mem; disk = ok disk }

  abbrev pub cpu_above : Sample → Bool
  cpu_above (usage, mem, disk) = d.floats.lt (high_cpu_threshold d) usage

  abbrev pub mem_above : Sample → Bool
  mem_above (usage, mem, disk) = d.floats.lt (high_mem_threshold d) mem.2

  -- A notification of a change at this tick.
  abbrev pub Reported : Sample → Notification F → Type 0
  Reported (usage, mem, disk) n =
      Says d repo_laws alert_type_high_cpu usage (high_cpu_threshold d) n
      ⊎ Says d repo_laws alert_type_high_mem mem.2 (high_mem_threshold d) n

  -- The counter and the alert of one type agree with its history.
  pub record Agrees (t : AlertType) (before : Bool) (h : List Bool) (w : World d) : Type 0 where
    pub count : (state_of d repo_laws store_laws w t).count ≡ pos (run_length h)
    pub condition : (state_of d repo_laws store_laws w t).condition ≡ latest h
    pub active : is_raised d repo_laws store_laws w t ≡ verdict before h

  decide_alert-verdict :
      (before x : Bool) (h : List Bool)
      → decide_alert d repo_laws (condition_name x) (pos (run_length (x ∷ h))) (verdict before h)
        ≡ verdict before (x ∷ h)
  decide_alert-verdict before true h = rw (verdict-cons before true h) (ground arith)
  decide_alert-verdict before false h = rw (verdict-cons before false h) (ground arith)

  step-Agrees :
      (t : AlertType) (before x : Bool) (h : List Bool) (w w' : World d)
      → Agrees t before h w
      → state_of d repo_laws store_laws w' t
        ≡ bump (condition_name x) (state_of d repo_laws store_laws w t)
      → is_raised d repo_laws store_laws w' t
        ≡ decide_alert d repo_laws
            (condition_name x)
            (state_of d repo_laws store_laws w' t).count
            (is_raised d repo_laws store_laws w t)
      → Agrees t before (x ∷ h) w'
  step-Agrees t before x h w w' ag st act =
      let (c, l) =
        bump-run_length x h (state_of d repo_laws store_laws w t) ag.count ag.condition in
      let count = ap (λ (s : AlertState). s.count) st ∙ c in
      record {
        count = count;
        condition = ap (λ (s : AlertState). s.condition) st ∙ l;
        active = act ∙ rw (count, ag.active) (decide_alert-verdict before x h);
      }

  -- Both types agree with their histories, and the stores serve calls.
  pub record Tracks (cpu_before mem_before : Bool) (hc hm : List Bool) (w : World d) : Type 0 where
    pub cpu : Agrees alert_type_high_cpu cpu_before hc w
    pub mem : Agrees alert_type_high_mem mem_before hm w
    pub repo_ready : repo_laws.Ready w.repo
    pub store_ready : store_laws.Ready w.alerts

  room_of : (s : AlertState) (n : ℕ) → s.count ≡ pos n → n < max_int64 → HasRoom s
  room_of s n e h = rw e (refl, h)

  Tracks-IsSteady :
      (b c : Bool) (hc hm : List Bool) (w : World d)
      → Tracks b c hc hm w
      → length hc < max_int64
      → length hm < max_int64
      → IsSteady d repo_laws store_laws w
  Tracks-IsSteady b c hc hm w tr lc lm = record {
    repo_ready = tr.repo_ready;
    store_ready = tr.store_ready;
    cpu_room =
        room_of (state_of d repo_laws store_laws w alert_type_high_cpu) (run_length hc) tr.cpu.count
          (omega (arith, run_length-le-length hc));
    mem_room =
        room_of (state_of d repo_laws store_laws w alert_type_high_mem) (run_length hm) tr.mem.count
          (omega (arith, run_length-le-length hm));
  }

  pub round-Tracks :
      (x : Sample) (b c : Bool) (hc hm : List Bool) (w : World d)
      → Tracks b c hc hm w
      → length hc < max_int64
      → length hm < max_int64
      → (w' : World d) × (collect_metrics d (readings x) w ≡ (ok tt, w'))
        × Tracks b c (cpu_above x ∷ hc) (mem_above x ∷ hm) w'
        × GaugeMoves d repo_laws store_laws w w'
        × Notified d repo_laws (Reported x) w w'
  round-Tracks (usage, mem, disk) b c hc hm w tr lc lm =
      let st = Tracks-IsSteady b c hc hm w tr lc lm in
      let (w', e, done, _, _, _) =
        collect_metrics-Collected d repo_laws store_laws usage mem disk w st in
      (
        w',
        e,
        record {
          cpu = step-Agrees alert_type_high_cpu b _ hc w w' tr.cpu done.cpu_state done.cpu_active;
          mem = step-Agrees alert_type_high_mem c _ hm w w' tr.mem done.mem_state done.mem_active;
          repo_ready = done.repo_ready;
          store_ready = done.store_ready;
        },
        done.gauge,
        done.notified,
      )

  rounds-Tracks :
      (xs : List Sample) (b c : Bool) (hc hm : List Bool) (w : World d)
      → Tracks b c hc hm w
      → length hc + length xs ≤ max_int64
      → length hm + length xs ≤ max_int64
      → (w' : World d) × (run_collector d (map readings xs) w ≡ (ok tt, w'))
        × Tracks b c (reverse_aux (map cpu_above xs) hc) (reverse_aux (map mem_above xs) hm) w'
  unfolding run_collector
  rounds-Tracks [] b c hc hm w tr lc lm = (w, refl, tr)
  rounds-Tracks (x ∷ xs) b c hc hm w tr lc lm =
      let (w1, e, tr1, _, _) = round-Tracks x b c hc hm w tr (omega arith) (omega arith) in
      let (w', rest, tr') =
        rounds-Tracks xs b c (cpu_above x ∷ hc) (mem_above x ∷ hm) w1 tr1 (omega arith)
          (omega arith) in
      (w', ground arith, tr')

  -- A system whose counters are at the start.
  pub record IsFresh (w : World d) : Type 0 where
    pub cpu_count : (state_of d repo_laws store_laws w alert_type_high_cpu).count ≡ pos 0
    pub cpu_condition : (state_of d repo_laws store_laws w alert_type_high_cpu).condition ≡ ""
    pub mem_count : (state_of d repo_laws store_laws w alert_type_high_mem).count ≡ pos 0
    pub mem_condition : (state_of d repo_laws store_laws w alert_type_high_mem).condition ≡ ""
    pub repo_ready : repo_laws.Ready w.repo
    pub store_ready : store_laws.Ready w.alerts

  pub IsFresh-Tracks :
      (w : World d)
      → IsFresh w
      → Tracks
          (is_raised d repo_laws store_laws w alert_type_high_cpu)
          (is_raised d repo_laws store_laws w alert_type_high_mem)
          []
          []
          w
  IsFresh-Tracks w fresh = record {
    cpu = record { count = fresh.cpu_count; condition = fresh.cpu_condition; active = refl };
    mem = record { count = fresh.mem_count; condition = fresh.mem_condition; active = refl };
    repo_ready = fresh.repo_ready;
    store_ready = fresh.store_ready;
  }

  -- With stores that keep their contracts, from counters at the start and over at most 2^63 - 1
  -- ticks with every reading at hand, the collector's loop succeeds; afterwards the CPU alert is
  -- active exactly if the newest three measurements in a row on the same side of the CPU threshold
  -- were above it, and, while no three were, if it was active before; the memory alert follows its
  -- own measurements in the same way.
  pub run_collector-verdict :
      (xs : List Sample) (w : World d)
      → IsFresh w
      → length xs ≤ max_int64
      → (w' : World d) × (run_collector d (map readings xs) w ≡ (ok tt, w'))
        × (is_raised d repo_laws store_laws w' alert_type_high_cpu
            ≡ verdict
                (is_raised d repo_laws store_laws w alert_type_high_cpu)
                (reverse (map cpu_above xs)))
        × (is_raised d repo_laws store_laws w' alert_type_high_mem
            ≡ verdict
                (is_raised d repo_laws store_laws w alert_type_high_mem)
                (reverse (map mem_above xs)))
  run_collector-verdict xs w fresh l =
      let start = IsFresh-Tracks w fresh in
      let (w', e, tr) = rounds-Tracks xs _ _ [] [] w start (omega arith) (omega arith) in
      (w', e, tr.cpu.active, tr.mem.active)
