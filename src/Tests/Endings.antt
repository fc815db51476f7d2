-- ===== src/Tests/Endings.antt =====
-- The end of `main` after a signal, and after an error of the collector.
use server_watch.Base.{◌≡◌, refl, true, false, ok, inr, inl}
use server_watch.System.{measure}
use server_watch.Service.{
  Service, returned, tick, signal, on_signal, shutdown_done, collector_stops, worker_stops,
  server_closes, all_done, Reach, here, next,
}
use server_watch.Service.Draining.{AllEnded, Returns}
use server_watch.Service.Shutdown.{returned-AllEnded, woken-Returns}
use server_watch.Tests.Rounds.{deps, reading}
use server_watch.Tests.Requests.{http_env, mounted}
use server_watch.Tests.Running.{running, surroundings, started, no_reading, ended}

abbrev stopped : Service deps
stopped = record running {
  stage = returned;
  cancelled = true;
  collecting = false;
  working = false;
  serving = false;
  group = 0;
}

to_the_end : Reach deps http_env mounted false running stopped
to_the_end =
    let told = next here refl signal in
    let left = next told refl (on_signal refl refl) in
    let down = next left refl (shutdown_done refl) in
    let collected = next down refl (collector_stops refl refl refl) in
    let worked = next collected refl (worker_stops refl refl) in
    let served = next worked refl (server_closes refl refl) in next served refl (all_done refl refl)

returned-AllEnded_example : (stopped.cancelled ≡ true) × AllEnded stopped
returned-AllEnded_example =
    returned-AllEnded deps http_env mounted false (λ c s. (ok tt, s)) tt "" reading surroundings
      started to_the_end refl

woken-Returns_example : Returns deps http_env mounted false ended
unfolding measure
woken-Returns_example =
    woken-Returns deps http_env mounted false (λ c s. (ok tt, s)) tt "" reading surroundings started
      (next here refl (tick no_reading refl refl)) refl (inr (inl refl))
