-- ===== src/System/Hysteresis/Decision.antt =====
-- Runs that end with three measurements on the same side of the threshold.
use server_watch.Base.{◌≡◌, ◌≤◌, refl, Bool, List, [], ◌∷◌, ◌++◌, length, map, ok, ap, ◌∙◌, arith}
use mathlib.Core.List.{reverse_aux}
use server_watch.Base.Int.{max_int64}
use server_watch.Model.{alert_type_high_cpu}
use server_watch.Alerts.Store.{StoreLaws}
use server_watch.System.Interfaces.{Deps, RepositoryLaws}
use server_watch.System.{World}
use server_watch.System.Collector.{run_collector}
use server_watch.System.Counting.{is_raised}
use server_watch.System.Hysteresis.{Sample, readings, cpu_above, IsFresh, run_collector-verdict}
use server_watch.System.Hysteresis.Verdict.{verdict}

reverse_aux-three :
    {A : Type 0} (f : A → Bool) (xs : List A) (x y z : A) (acc : List Bool)
    → reverse_aux (map f (xs ++ x ∷ y ∷ z ∷ [])) acc ≡ f z ∷ f y ∷ f x ∷ reverse_aux (map f xs) acc
reverse_aux-three f [] x y z acc = refl
reverse_aux-three f (w ∷ xs) x y z acc = reverse_aux-three f xs x y z (f w ∷ acc)

verdict-three :
    (before v a b c : Bool) (h : List Bool)
    → a ≡ v
    → b ≡ v
    → c ≡ v
    → verdict before (a ∷ b ∷ c ∷ h) ≡ v
verdict-three before v a b c h ea eb ec = ground (arith, ea, eb, ec)

module _ {F : Type 0} (d : Deps F) (repo_laws : RepositoryLaws d.repository)
    (store_laws : StoreLaws d.alert_state) where
  -- With stores that keep their contracts, from counters at the start and over at most 2^63 - 1
  -- ticks with every reading at hand, whatever was measured before, once three measurements of the
  -- CPU in a row are on the same side of its threshold, the collector's loop has succeeded and the
  -- CPU alert is active exactly if they are above it.
  run_collector_settles :
      (xs : List (Sample d repo_laws store_laws)) (x y z : Sample d repo_laws store_laws)
      (above : Bool) (w : World d)
      → IsFresh d repo_laws store_laws w
      → length (xs ++ x ∷ y ∷ z ∷ []) ≤ max_int64
      → cpu_above d repo_laws store_laws x ≡ above
      → cpu_above d repo_laws store_laws y ≡ above
      → cpu_above d repo_laws store_laws z ≡ above
      → (w' : World d) × (run_collector d
            (map (readings d repo_laws store_laws) (xs ++ x ∷ y ∷ z ∷ []))
            w
          ≡ (ok tt, w'))
        × (is_raised d repo_laws store_laws w' alert_type_high_cpu ≡ above)
  run_collector_settles xs x y z above w fresh l ex ey ez =
      let (w', e, cpu, _) =
        run_collector-verdict d repo_laws store_laws (xs ++ x ∷ y ∷ z ∷ []) w fresh l in
      let f = cpu_above d repo_laws store_laws in
      (
        w',
        e,
        cpu
            ∙ ap (verdict _) (reverse_aux-three f xs x y z [])
            ∙ verdict-three _ above (f z) (f y) (f x) (reverse_aux (map f xs) []) ez ey ex,
      )
