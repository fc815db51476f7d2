-- ===== src/Service/Current.antt =====
-- What `/metrics` answers after a round of the collector, on the stores that `main` builds.
use server_watch.Base.{ℕ, ◌≡◌, refl, false, none, some, String, Error, ok, err, arith}
use Prim.Native.String.{◌++◌}
use server_watch.Model.{Floats, Time, Metrics}
use server_watch.Config.{ConfigEnv}
use server_watch.RedisClient.{RedisClient, RedisLaws}
use server_watch.Prometheus.{Gauges}
use server_watch.Cache
use server_watch.Cache.{TextFormat, share}
use server_watch.Cache.RoundTrip.{IsExact, get_metrics-set_metrics}
use server_watch.Notifications.Queue.{NotificationCodec}
use server_watch.Alerts.Redis.Unreachable.{Unreachable}
use server_watch.Storage.{Sql}
use server_watch.System.Interfaces.{Deps}
use server_watch.System.{World, collect_metrics}
use server_watch.System.Settings.{get_metrics}
use server_watch.System.Caching.{IsShown, collect_metrics-IsShown}
use server_watch.Http.{Request, Response, response_writer}
use server_watch.Handlers.{HttpEnv, send_json, json_header}
use server_watch.Handlers.History.{metrics_response}
use server_watch.Handlers.Metrics.{accepts_prometheus, metrics_handler}
use server_watch.Server.{system_of}
use server_watch.Server.Replies.{Reply, IsReply, IsUnwritten, send_json-IsReply}
use server_watch.Service.Wiring.{wired, cache_settings}

-- A request with an id, whose header does not ask for the format of Prometheus.
pub record AsksJson {F : Type 0} (http : HttpEnv F) (r : Request) : Type 0 where
  pub id : String
  pub identified : r.request_id ≡ some id
  pub plain : accepts_prometheus http r ≡ ok false

-- The metrics as JSON, or the failure of the encoding.
abbrev pub metrics_reply : {F : Type 0} → HttpEnv F → Metrics F → Reply
metrics_reply http m = elim (http.encode_metrics (metrics_response m)) [
  | ok text ↦ (200, some text)
  | err e ↦ (500, none)
]

module _ {F : Type 0} (http : HttpEnv F) (d : Deps F)
    (prometheus : Request → Gauges F → Response → Response) (r : Request) (w : Response)
    (asks : AsksJson http r) (unsent : IsUnwritten w) where
  metrics_handler-IsReply :
      (s : World d) (m : Metrics F)
      → (get_metrics d s).0 ≡ m
      → IsReply
          (metrics_reply http m)
          w
          (metrics_handler http (system_of d) response_writer prometheus r w s).0
  unfolding metrics_handler
  metrics_handler-IsReply s m got =
      let here : (metrics_handler http (system_of d) response_writer prometheus r w s).0
          ≡ send_json response_writer (http.encode_metrics (metrics_response m))
              (json_header response_writer w) =
        ground (arith, asks.identified, asks.plain, got) in
      rw here (send_json-IsReply http d w unsent (http.encode_metrics (metrics_response m)))

module _ {F : Type 0} (http : HttpEnv F) (fl : Floats F) (env : ConfigEnv F) (sql : Sql F)
    (client : RedisClient) (text : TextFormat F) (codec : NotificationCodec F)
    (now : ℕ → Time) where
  -- What is shown of `m` when the cache is written and read from the state `s` on: Redis answers,
  -- or it cannot be reached.
  pub data Shows (m : Metrics F) (s : client.St) : Metrics F → Type 1 where
    answering :
        (laws : RedisLaws client)
        → laws.Up s
        → IsExact fl text client laws cache_settings m
        → Shows m s (record m {
          mem_usage = share fl text client cache_settings m.mem_used_mb m.mem_total_mb;
          disk_usage = share fl text client cache_settings m.disk_used m.disk_total;
        })
    unreachable : (gone : Unreachable client) → gone.Down s → Shows m s m

  -- Nothing is read from a server that cannot be reached.
  cache_misses :
      (gone : Unreachable client) (m : Metrics F) (s : client.St)
      → gone.Down s
      → let s1 = (Cache.set_metrics fl text client cache_settings m s).1 in
        (e : Error) × ((Cache.get_metrics fl text client cache_settings s1).0 ≡ err e)
  unfolding Cache.set_metrics Cache.get_metrics
  cache_misses gone m s down =
      let (e1, s1, lost, down') =
        gone.set_fails (cache_settings.prefix ++ "cpu") (text.format_float m.cpu_usage)
          cache_settings.ttl s down in
      let (e2, s2, lost', down2, other) =
        gone.get_fails (cache_settings.prefix ++ "cpu") s1 down' in
      (Error.wrap "не удалось получить из кэша" e2, ground (arith, lost, lost', other))

  abbrev main_deps : Deps F
  main_deps = wired fl env sql client text codec now

  get_metrics-Shows :
      (m shown : Metrics F) (before : client.St) (w : World main_deps)
      → IsShown main_deps refl m before w
      → Shows m before shown
      → (get_metrics main_deps w).0 ≡ shown
  unfolding get_metrics
  get_metrics-Shows m _ before w h (answering laws up exact) =
      let read = get_metrics-set_metrics fl text client laws cache_settings m before up exact in
      rw h.copy (ground (arith, read))
  get_metrics-Shows m _ before w h (unreachable gone down) =
      let (e, miss) = cache_misses gone m before down in ground (arith, miss, h.copy, h.current)

  -- On the stores that `main` builds: if `CollectMetrics` with all readings at hand succeeded, a
  -- request to the handler of `/metrics` with an id, that does not ask for the format of
  -- Prometheus, on an open connection, is answered by 200 with the JSON of this measurement, or by
  -- 500 if it cannot be encoded; while Redis answers, and for values that are read back from their
  -- texts as they were and totals that are not zero, its memory and disk usage are computed anew
  -- from the used and total values; while Redis cannot be reached, it is shown as it was measured.
  pub current_metrics_answered :
      (usage : F) (mem disk : F × F × F) (w : World main_deps) (shown : Metrics F)
      (prometheus : Request → Gauges F → Response → Response) (r : Request) (rw : Response)
      → (collect_metrics main_deps (record { cpu = ok usage; mem = ok mem; disk = ok disk }) w).0
        ≡ ok tt
      → Shows
          (record {
            cpu_usage = usage;
            mem_usage = mem.2;
            mem_used_mb = mem.1;
            mem_total_mb = mem.0;
            disk_usage = disk.2;
            disk_used = disk.1;
            disk_total = disk.0;
            timestamp = now w.clock;
          })
          w.cache
          shown
      → AsksJson http r
      → IsUnwritten rw
      → IsReply
          (metrics_reply http shown)
          rw
          (metrics_handler http
            (system_of main_deps)
            response_writer
            prometheus
            r
            rw
            (collect_metrics main_deps
              (record { cpu = ok usage; mem = ok mem; disk = ok disk })
              w).1).0
  current_metrics_answered usage mem disk w shown prometheus r rw fine shows asks unsent =
      let held = collect_metrics-IsShown main_deps refl usage mem disk w fine in
      metrics_handler-IsReply http main_deps prometheus r rw asks unsent _ shown
        (get_metrics-Shows _ shown w.cache _ held shows)
