-- ===== src/Tests/Current.antt =====
-- A request for the current metrics, after a round on the system that `main` builds.
use server_watch.Base.{◌+◌, ◌≡◌, refl, false, none, some, ok, ap, [], arith}
use server_watch.Http.{Request, fresh_response, response_writer}
use server_watch.Handlers.{HttpEnv}
use server_watch.Handlers.Metrics.{accepts_prometheus, metrics_handler}
use server_watch.System.Interfaces.{Deps}
use server_watch.System.{World, collect_metrics}
use server_watch.System.Collection.{collect_metrics-Collected}
use server_watch.Server.{system_of}
use server_watch.Server.Replies.{IsReply}
use server_watch.Service.Wiring.{wired}
use server_watch.Service.Delivery.{repo_laws, store_laws}
use server_watch.Service.Current.{AsksJson, answering, current_metrics_answered}
use server_watch.Tests.Stores.{Number, numbers, table, table_laws}
use server_watch.Tests.Client.{server, server_laws, list_laws, no_keys}
use server_watch.Tests.Codec.{texts}
use server_watch.Tests.Caching.{format}
use server_watch.Tests.Phases.{empty_memory}
use server_watch.Tests.Requests.{get, http_env}
use server_watch.Tests.Rounds.{env, world}

abbrev caching : Deps Number
caching = wired numbers env table server format texts (λ n. 100 + n)

abbrev caching_world : World caching
caching_world = record {
  metrics = world.metrics;
  last_success = 0;
  last_error = none;
  config = world.config;
  config_path = "config.yaml";
  repo = [];
  alerts = record { memory = empty_memory; redis_st = no_keys; redis_failed = false };
  cache = no_keys;
  queue = no_keys;
  files = tt;
  gauges = world.gauges;
  clock = 0;
}

-- The CPU usage, as JSON.
abbrev showing : HttpEnv Number
showing = record http_env { encode_metrics = λ m. ok (format.format_float m.cpu_percent) }

abbrev plain_request : Request
plain_request = record (get "/metrics") { header = λ name. "" }

plain_request-AsksJson : AsksJson showing plain_request
unfolding accepts_prometheus
plain_request-AsksJson = record { id = "1"; identified = refl; plain = refl }

one_round :
    (collect_metrics caching
      (record {
        cpu = ok (some 3);
        mem = ok (some 4, some 8, some 200);
        disk = ok (some 2, some 6, some 300);
      })
      caching_world).0
    ≡ ok tt
one_round =
    let (_, done, _, _, _, _) =
      collect_metrics-Collected caching
        (repo_laws numbers env table server format texts (λ n. 100 + n) table_laws server_laws
          list_laws)
        (store_laws numbers env table server format texts (λ n. 100 + n) table_laws server_laws
          list_laws)
        (some 3) (some 4, some 8, some 200) (some 2, some 6, some 300) caching_world
        (record {
          repo_ready = (tt, (tt, tt, tt));
          store_ready = (refl, (refl, λ u v. refl));
          cpu_room = (refl, omega arith);
          mem_room = (refl, omega arith);
        }) in
    ap (λ o. o.0) done

current_metrics_answered_example :
    IsReply
      (200, some "111")
      (fresh_response false)
      (metrics_handler showing
        (system_of caching)
        response_writer
        (λ r g w. w)
        plain_request
        (fresh_response false)
        (collect_metrics caching
          (record {
            cpu = ok (some 3);
            mem = ok (some 4, some 8, some 200);
            disk = ok (some 2, some 6, some 300);
          })
          caching_world).1).0
current_metrics_answered_example =
    current_metrics_answered showing numbers env table server format texts (λ n. 100 + n) (some 3)
      (some 4, some 8, some 200) (some 2, some 6, some 300) caching_world _ (λ r g w. w)
      plain_request (fresh_response false) one_round
      (answering server_laws refl (record {
        cpu = refl;
        mem_used = refl;
        mem_total = refl;
        disk_used = refl;
        disk_total = refl;
        timestamp = refl;
        mem_nonzero = refl;
        disk_nonzero = refl;
      }))
      plain_request-AsksJson (record { sent = refl; broken = refl })
