-- ===== src/System/Hysteresis/Rounds.antt =====
-- What each round of the collector's loop does, the whole loop does.
use server_watch.Base.{All, ◌+◌, ◌≡◌, ◌≤◌, Bool, List, [], ◌∷◌, length, map, ok, subst, sym, arith}
use server_watch.Base.Int.{max_int64}
use server_watch.Alerts.Store.{StoreLaws}
use server_watch.System.Interfaces.{Deps, RepositoryLaws}
use server_watch.System.{World, Readings, collect_metrics}
use server_watch.System.Announcements.{Notified}
use server_watch.System.Collector.{run_collector}
use server_watch.System.Processing.{GaugeMoves}
use server_watch.System.Hysteresis.{
  Sample, readings, Reported, cpu_above, mem_above, Tracks, IsFresh, IsFresh-Tracks, round-Tracks,
}

module _ {F : Type 0} (d : Deps F) (repo_laws : RepositoryLaws d.repository)
    (store_laws : StoreLaws d.alert_state) where
  run_collector-cons :
      (rd : Readings F) (ticks : List (Readings F)) (w w1 : World d)
      → collect_metrics d rd w ≡ (ok tt, w1)
      → (run_collector d (rd ∷ ticks) w).1 ≡ (run_collector d ticks w1).1
  unfolding run_collector
  run_collector-cons rd ticks w w1 e = ground (arith, e)

  -- A reflexive and transitive relation that each round keeps.
  module _ (Fits : Sample d repo_laws store_laws → Type 0) (R : World d → World d → Type 0)
      (stay : (w : World d) → R w w) (chain : (u v w : World d) → R u v → R v w → R u w)
      (round : (x : Sample d repo_laws store_laws) (w w' : World d)
        → Fits x
        → GaugeMoves d repo_laws store_laws w w'
        → Notified d repo_laws (Reported d repo_laws store_laws x) w w'
        → R w w') where
    tracked_rounds :
        (xs : List (Sample d repo_laws store_laws)) (b c : Bool) (hc hm : List Bool) (w : World d)
        → All Fits xs
        → Tracks d repo_laws store_laws b c hc hm w
        → length hc + length xs ≤ max_int64
        → length hm + length xs ≤ max_int64
        → R w (run_collector d (map (readings d repo_laws store_laws) xs) w).1
    unfolding run_collector
    tracked_rounds [] b c hc hm w fits track lc lm = stay w
    tracked_rounds (x ∷ xs) b c hc hm w (fit, fits) track lc lm =
        let (w1, e, tr1, moves, news) =
          round-Tracks d repo_laws store_laws x b c hc hm w track (omega arith) (omega arith) in
        let rest =
          tracked_rounds xs b c (cpu_above d repo_laws store_laws x ∷ hc)
            (mem_above d repo_laws store_laws x ∷ hm) w1 fits tr1 (omega arith) (omega arith) in
        subst (R w)
          (sym (
            run_collector-cons (readings d repo_laws store_laws x)
              (map (readings d repo_laws store_laws) xs) w w1 e))
          (chain w w1 _ (round x w w1 fit moves news) rest)

    pub rounds_rule :
        (xs : List (Sample d repo_laws store_laws)) (w : World d)
        → All Fits xs
        → IsFresh d repo_laws store_laws w
        → length xs ≤ max_int64
        → R w (run_collector d (map (readings d repo_laws store_laws) xs) w).1
    rounds_rule xs w fits fresh l =
        tracked_rounds xs _ _ [] [] w fits (IsFresh-Tracks d repo_laws store_laws w fresh)
          (omega arith) (omega arith)
