-- ===== src/Service/Delivery.antt =====
-- From a measurement to the senders, on the stores that `main` builds while Redis answers: the
-- collector's loop, the queue in Redis, and the worker's loop.
use server_watch.Base.{
  arith, ℕ, ◌≡◌, ◌≤◌, refl, inl, inr, sym, ap, subst, ◌∙◌, false, some, List, [], ◌∷◌, length, map,
  String, Result, ok, err, All, All-map,
}
use mathlib.Core.List.{foldl, reverse}
use server_watch.Base.{All-reverse}
use server_watch.Base.Int.{max_int64}
use server_watch.Model.{Floats, Time, Notification, alert_type_high_cpu, alert_type_high_mem}
use server_watch.Config.{ConfigEnv}
use server_watch.RedisClient.{RedisClient, RedisLaws}
use server_watch.Cache.{TextFormat}
use server_watch.Notifications.Queue.{NotificationCodec}
use server_watch.Notifications.Queue.Order.{ListLaws, consumes, consumes-pushes}
use server_watch.Notifications.Worker.{Poll, received, failed, Sender, polling, is_empty, run}
use server_watch.Notifications.Worker.Deliveries.{
  to_all, notifications, served, exit_of, run_deliveries,
}
use server_watch.Alerts.Memory.{memory_backend}
use server_watch.Alerts.Redis.{redis_backend}
use server_watch.Alerts.Redis.Contract.{redis_laws}
use server_watch.Alerts.Store.{StoreLaws}
use server_watch.Alerts.Fallback.Healthy.{healthy_laws}
use server_watch.Storage.{Sql}
use server_watch.Storage.ActiveRows.{SqlLaws}
use server_watch.Storage.Contract.{sqlite_laws}
use server_watch.System.Interfaces.{Deps, RepositoryLaws}
use server_watch.System.{World}
use server_watch.System.Announcements.{
  Notified, told, quiet-Notified, Notified-trans, Notified-weaken,
}
use server_watch.System.Subscriber.{IsTrue, Reported-IsTrue}
use server_watch.System.Collector.{run_collector}
use server_watch.System.Counting.{is_raised}
use server_watch.System.Hysteresis.{Sample, readings, Reported, IsFresh}
use server_watch.System.Hysteresis.Rounds.{rounds_rule}
use server_watch.Service.Wiring.{wired, alert_settings}

-- What the worker sees of a call of `Consume`; an error is followed by a full wait.
abbrev pub poll_of : {F : Type 0} → Result (Notification F) → Poll F
poll_of (ok n) = received n
poll_of (err e) = failed e false

module _ {F : Type 0} (fl : Floats F) where
  served-polls :
      (ns : List (Notification F))
      → All (λ n. is_empty fl n ≡ false) ns
      → (notifications fl (served (map poll_of (map ok ns))) ≡ ns)
        × (exit_of (map poll_of (map ok ns)) ≡ polling)
  served-polls [] h = (refl, refl)
  served-polls (n ∷ ns) (full, h) =
      let (rest, going) = served-polls ns h in (rw full (ap (λ l. n ∷ l) rest), going)

module _ {F : Type 0} (fl : Floats F) (env : ConfigEnv F) (sql : Sql F) (client : RedisClient)
    (format : TextFormat F) (codec : NotificationCodec F) (now : ℕ → Time) (db : SqlLaws sql)
    (laws : RedisLaws client) (list_laws : ListLaws client) where
  abbrev pub live : Deps F
  live = wired fl env sql client format codec now

  abbrev pub repo_laws : RepositoryLaws live.repository
  repo_laws = sqlite_laws fl sql db

  abbrev pub store_laws : StoreLaws live.alert_state
  store_laws =
      healthy_laws memory_backend (redis_backend client alert_settings)
        (redis_laws client laws alert_settings (omega arith))

  -- The JSON of a notification of two numbers that JSON has, is read back as it was.
  abbrev pub Carries : (F → Type 0) → (Notification F → String) → Type 0
  Carries IsFinite text =
      (n : Notification F)
      → IsFinite n.value
      → IsFinite n.threshold
      → (codec.marshal n ≡ ok (text n)) × (codec.unmarshal (text n) ≡ ok n)

  module _ (IsFinite : F → Type 0) (text : Notification F → String)
      (carries : Carries IsFinite text)
      (thresholds : IsFinite (fl.of_ℕ 80) × IsFinite (fl.of_ℕ 90)) where
    abbrev Told : Notification F → Type 0
    Told n =
        IsTrue live repo_laws store_laws n
        × ((codec.marshal n ≡ ok (text n)) × (codec.unmarshal (text n) ≡ ok n))

    -- The readings of one tick are numbers that JSON has.
    abbrev pub IsRead : Sample live repo_laws store_laws → Type 0
    IsRead x = IsFinite x.0 × IsFinite x.1.2

    Reported-Told :
        (x : Sample live repo_laws store_laws) (n : Notification F)
        → IsRead x
        → Reported live repo_laws store_laws x n
        → Told n
    Reported-Told x n (usage, share) h = (
      Reported-IsTrue live repo_laws store_laws x n h,
      elim h [
        | inl (k, v, th, _) ↦
            carries n (subst IsFinite (sym v) usage) (subst IsFinite (sym th) thresholds.0)
        | inr (k, v, th, _) ↦
            carries n (subst IsFinite (sym v) share) (subst IsFinite (sym th) thresholds.1)
      ],
    )

    IsTrue-full : (n : Notification F) → IsTrue live repo_laws store_laws n → is_empty fl n ≡ false
    IsTrue-full n (inl (k, _), _) = rw k
    IsTrue-full n (inr (k, _), _) = rw k

    -- On the stores that `main` builds, with a database that does what its statements say, a Redis
    -- server that serves strings and lists, and JSON that reads back every notification of numbers
    -- that it has, from counters at the start and over at most 2^63 - 1 ticks with every reading
    -- such a number, the collector's loop has pushed notifications of which this holds: a
    -- subscriber who takes them in order, and expects each to say the opposite of the last one of
    -- its type, is never surprised and ends with the alerts that are active; each has the
    -- threshold of its type and says that an alert was created exactly if its value is above it;
    -- and as many polls of the worker give them to every sender, each once, the newest first.
    pub reachable-delivered :
        (xs : List (Sample live repo_laws store_laws)) (w : World live)
        → IsFresh live repo_laws store_laws w
        → length xs ≤ max_int64
        → All IsRead xs
        → list_laws.Up w.queue
        → {S : Type 0} (senders : List (Sender F S)) (s : S)
        → let w' = (run_collector live (map (readings live repo_laws store_laws) xs) w).1 in
          (news : List (Notification F)) × (told alert_type_high_cpu
              (is_raised live repo_laws store_laws w alert_type_high_cpu)
              news
            ≡ some (is_raised live repo_laws store_laws w' alert_type_high_cpu))
          × (told alert_type_high_mem
                (is_raised live repo_laws store_laws w alert_type_high_mem)
                news
              ≡ some (is_raised live repo_laws store_laws w' alert_type_high_mem))
          × All (IsTrue live repo_laws store_laws) news
          × (run fl senders
                (map poll_of (consumes client codec "server-watch:" (length news) w'.queue).0)
                s
              ≡ (polling, foldl (to_all senders) s (reverse news)))
    reachable-delivered xs w fresh l read up senders s =
        let sent =
          rounds_rule live repo_laws store_laws IsRead (Notified live repo_laws Told)
            (λ v. quiet-Notified live repo_laws Told v v refl (λ u. refl))
            (Notified-trans live repo_laws Told)
            (λ x u v fit moves.
              Notified-weaken live repo_laws (Reported live repo_laws store_laws x) Told
                (λ n. Reported-Told x n fit) u v)
            xs w read fresh l in
        let true_news =
          All-map Told (IsTrue live repo_laws store_laws) sent.news (λ n h. h.0) sent.each in
        let carried = All-map Told _ sent.news (λ n h. h.1) sent.each in
        let (replies, _) =
          consumes-pushes client list_laws codec "server-watch:" text sent.news w.queue carried
            up in
        let full = All-reverse _ sent.news (All-map _ _ sent.news IsTrue-full true_news) in
        let (all, going) = served-polls fl (reverse sent.news) full in
        (
          sent.news,
          sent.cpu,
          sent.mem,
          true_news,
          rw (sent.pushed, replies)
              (run_deliveries fl senders (map poll_of (map ok (reverse sent.news))) s
                ∙ rw (all, going) refl),
        )
