-- ===== src/System/Balance.antt =====
-- The gauge of active alerts over a whole run.
use server_watch.Base.{
  All-Unit, zero, suc, ◌≡◌, ◌≤◌, refl, Bool, true, false, List, length, map, ap, ◌∙◌,
}
use server_watch.Base.Int.{ℤ, inc, dec, max_int64}
use server_watch.Model.{alert_type_high_cpu, alert_type_high_mem}
use server_watch.Alerts.Store.{StoreLaws}
use server_watch.System.Interfaces.{Deps, RepositoryLaws}
use server_watch.System.{World}
use server_watch.System.Turns.{moved}
use server_watch.System.Collector.{run_collector}
use server_watch.System.Counting.{is_raised}
use server_watch.System.Processing.{GaugeMoves}
use server_watch.System.Hysteresis.Rounds.{rounds_rule}
use server_watch.System.Hysteresis.{Sample, readings, IsFresh}

-- A number of which this alert, if active, is one.
abbrev pub counted : Bool → ℤ → ℤ
counted true n = inc n
counted false n = n

abbrev pub uncounted : Bool → ℤ → ℤ
uncounted true n = dec n
uncounted false n = n

inc-dec : (n : ℤ) → inc (dec n) ≡ n
inc-dec (ℤ.pos zero) = refl
inc-dec (ℤ.pos (suc n)) = refl
inc-dec (ℤ.negsuc n) = refl

dec-inc : (n : ℤ) → dec (inc n) ≡ n
dec-inc (ℤ.pos n) = refl
dec-inc (ℤ.negsuc zero) = refl
dec-inc (ℤ.negsuc (suc n)) = refl

uncounted-moved : (b b' : Bool) (n : ℤ) → uncounted b' (moved b b' n) ≡ uncounted b n
uncounted-moved true true n = refl
uncounted-moved true false n = refl
uncounted-moved false true n = dec-inc n
uncounted-moved false false n = refl

uncounted-swap : (b c : Bool) (n : ℤ) → uncounted b (uncounted c n) ≡ uncounted c (uncounted b n)
uncounted-swap true true n = refl
uncounted-swap true false n = refl
uncounted-swap false true n = refl
uncounted-swap false false n = refl

module _ {F : Type 0} (d : Deps F) (repo_laws : RepositoryLaws d.repository)
    (store_laws : StoreLaws d.alert_state) where
  -- What the gauge shows beyond the alerts that are active.
  abbrev pub surplus : World d → ℤ
  surplus w = uncounted (is_raised d repo_laws store_laws w alert_type_high_cpu) (
      uncounted (is_raised d repo_laws store_laws w alert_type_high_mem)
        w.gauges.alerts_active_total)

  GaugeMoves-surplus :
      (w w' : World d) → GaugeMoves d repo_laws store_laws w w' → surplus w' ≡ surplus w
  GaugeMoves-surplus w w' moves =
      let cpu = is_raised d repo_laws store_laws w alert_type_high_cpu in
      let cpu' = is_raised d repo_laws store_laws w' alert_type_high_cpu in
      let mem = is_raised d repo_laws store_laws w alert_type_high_mem in
      let mem' = is_raised d repo_laws store_laws w' alert_type_high_mem in
      let n = w.gauges.alerts_active_total in
      ap (λ g. uncounted cpu' (uncounted mem' g)) moves
      ∙ ap (uncounted cpu') (uncounted-moved mem mem' (moved cpu cpu' n))
      ∙ uncounted-swap cpu' mem (moved cpu cpu' n)
      ∙ ap (uncounted mem) (uncounted-moved cpu cpu' n)
      ∙ uncounted-swap mem cpu n

  -- With stores that keep their contracts, from counters at the start and over at most 2^63 - 1
  -- ticks with every reading at hand, the gauge of active alerts shows after the collector's loop
  -- as much beyond the number of active alerts as before it.
  pub run_collector-surplus :
      (xs : List (Sample d repo_laws store_laws)) (w : World d)
      → IsFresh d repo_laws store_laws w
      → length xs ≤ max_int64
      → surplus (run_collector d (map (readings d repo_laws store_laws) xs) w).1 ≡ surplus w
  run_collector-surplus xs w fresh l =
      rounds_rule d repo_laws store_laws (λ x. Unit) (λ u v. surplus v ≡ surplus u) (λ u. refl)
        (λ u v z h k. k ∙ h) (λ x u v fit moves news. GaugeMoves-surplus u v moves) xs w
        (All-Unit xs) fresh l
