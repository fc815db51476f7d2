-- ===== src/System/Subscriber.antt =====
-- What a subscriber to the notifications learns from a whole run of the collector.
use server_watch.Base.{All-Unit, ◌≡◌, ◌⊎◌, inl, inr, ◌≤◌, refl, List, length, map}
use server_watch.Base.Int.{max_int64}
use server_watch.Model.{Notification, alert_type_high_cpu, alert_type_high_mem}
use server_watch.Alerts.Store.{StoreLaws}
use server_watch.System.Interfaces.{Deps, RepositoryLaws}
use server_watch.System.{World, high_cpu_threshold, high_mem_threshold}
use server_watch.System.Announcements.{
  IsHonest, Notified-weaken, Notified, Notified-trans, quiet-Notified,
}
use server_watch.System.Collector.{run_collector}
use server_watch.System.Hysteresis.{Sample, readings, Reported, IsFresh}
use server_watch.System.Hysteresis.Rounds.{rounds_rule}

module _ {F : Type 0} (d : Deps F) (repo_laws : RepositoryLaws d.repository)
    (store_laws : StoreLaws d.alert_state) where
  -- The notification of one type with its threshold that says "created" exactly if its value is
  -- above.
  abbrev pub IsTrue : Notification F → Type 0
  IsTrue n =
      ((n.kind ≡ alert_type_high_cpu) × (n.threshold ≡ high_cpu_threshold d)
        ⊎ (n.kind ≡ alert_type_high_mem) × (n.threshold ≡ high_mem_threshold d))
      × IsHonest d repo_laws n

  pub Reported-IsTrue :
      (x : Sample d repo_laws store_laws) (n : Notification F)
      → Reported d repo_laws store_laws x n
      → IsTrue n
  Reported-IsTrue x n (inl (k, v, th, honest)) = (inl (k, th), honest)
  Reported-IsTrue x n (inr (k, v, th, honest)) = (inr (k, th), honest)

  -- With stores that keep their contracts, from counters at the start and over at most 2^63 - 1
  -- ticks with every reading at hand, the collector's loop changes the queue by pushing
  -- notifications of which this holds: a subscriber who takes them in order, and expects each to
  -- say the opposite of the last one of its type, is never surprised and ends with the alerts that
  -- are active; each has the threshold of its type and says that an alert was created exactly if
  -- its value is above it.
  run_collector-Notified :
      (xs : List (Sample d repo_laws store_laws)) (w : World d)
      → IsFresh d repo_laws store_laws w
      → length xs ≤ max_int64
      → Notified d repo_laws IsTrue w
          (run_collector d (map (readings d repo_laws store_laws) xs) w).1
  run_collector-Notified xs w =
      rounds_rule d repo_laws store_laws (λ x. Unit) (Notified d repo_laws IsTrue)
        (λ v. quiet-Notified d repo_laws IsTrue v v refl (λ u. refl))
        (Notified-trans d repo_laws IsTrue)
        (λ x u v fit moves.
          Notified-weaken d repo_laws (Reported d repo_laws store_laws x) IsTrue (Reported-IsTrue x)
            u v)
        xs w (All-Unit xs)
