-- ===== src/Tests/Deliveries.antt =====
-- The system that `main` builds with Redis at hand, from the measurements to the senders.
use server_watch.Base.{◌+◌, ◌≡◌, refl, false, none, some, List, [], ◌∷◌, length, map, All, arith}
use mathlib.Core.List.{foldl, reverse}
use server_watch.Model.{Notification, alert_type_high_cpu, alert_type_high_mem}
use server_watch.System.Interfaces.{Deps}
use server_watch.System.{World}
use server_watch.System.Announcements.{told}
use server_watch.System.Subscriber.{IsTrue}
use server_watch.System.Collector.{run_collector}
use server_watch.System.Counting.{is_raised}
use server_watch.Notifications.Queue.Order.{consumes}
use server_watch.Notifications.Worker.{polling, run}
use server_watch.Notifications.Worker.Deliveries.{to_all}
use server_watch.Service.Wiring.{wired}
use server_watch.Service.Delivery.{repo_laws, store_laws, poll_of, reachable-delivered}
use server_watch.Tests.Stores.{Number, numbers, table, table_laws}
use server_watch.Tests.Client.{server, server_laws, list_laws, no_keys}
use server_watch.Tests.Codec.{texts, text_of, texts-carries, IsFinite}
use server_watch.Tests.Senders.{keep}
use server_watch.Tests.Phases.{empty_memory}
use server_watch.Tests.Outages.{plain}
use server_watch.Tests.Rounds.{env, world, reading, sample}

abbrev joined : Deps Number
joined = wired numbers env table server plain texts (λ n. 100 + n)

abbrev joined_world : World joined
joined_world = record {
  metrics = world.metrics;
  last_success = 0;
  last_error = none;
  config = world.config;
  config_path = "config.yaml";
  repo = [];
  alerts = record { memory = empty_memory; redis_st = no_keys; redis_failed = false };
  cache = no_keys;
  queue = no_keys;
  files = tt;
  gauges = world.gauges;
  clock = 0;
}

read : IsFinite (some 95) × IsFinite (some 10)
read = ((95, refl), (10, refl))

reachable-delivered_example :
    let rl =
      repo_laws numbers env table server plain texts
        (λ n. 100 + n)
        table_laws
        server_laws
        list_laws in
    let sl =
      store_laws numbers env table server plain texts
        (λ n. 100 + n)
        table_laws
        server_laws
        list_laws in
    let w' = (run_collector joined (reading ∷ reading ∷ reading ∷ []) joined_world).1 in
    (news : List (Notification Number)) × (told alert_type_high_cpu false news
      ≡ some (is_raised joined rl sl w' alert_type_high_cpu))
    × (told alert_type_high_mem false news ≡ some (is_raised joined rl sl w' alert_type_high_mem))
    × All (IsTrue joined rl sl) news
    × (run numbers
          (keep ∷ [])
          (map poll_of (consumes server texts "server-watch:" (length news) w'.queue).0)
          []
        ≡ (polling, foldl (to_all (keep ∷ [])) [] (reverse news)))
reachable-delivered_example =
    reachable-delivered numbers env table server plain texts (λ n. 100 + n) table_laws server_laws
      list_laws IsFinite text_of texts-carries ((80, refl), (90, refl))
      (sample ∷ sample ∷ sample ∷ []) joined_world
      (record {
        cpu_count = refl;
        cpu_condition = refl;
        mem_count = refl;
        mem_condition = refl;
        repo_ready = (tt, (tt, tt, tt));
        store_ready = (refl, (refl, λ u v. refl));
      })
      (omega arith) (read, (read, (read, tt))) tt (keep ∷ []) []
