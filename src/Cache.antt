-- ===== src/Cache.antt =====
-- internal/redis/metrics-cache.go: the latest metrics under six keys of Redis. `fmt.Sprintf("%.2f")`,
-- `strconv.ParseFloat` and the two directions of time.RFC3339 are the parameter `text`.
pub mod RoundTrip
pub mod Torn
use Prim.Native.String.{◌++◌}
use server_watch.Base.{
  ℕ, Bool, String, Error, message, sentinel, redis_nil, cache_miss, errors_is, Result, ok, err,
  Action, raise, pure, wrapping, ◌>>=◌, ◌>>◌, if◌then◌else◌,
}
use server_watch.Model.{Floats, Time, Metrics}
use server_watch.RedisClient.{RedisClient}

pub record RedisMetricsCache : Type 0 where
  pub ttl : Time
  pub prefix : String

pub record TextFormat (F : Type 0) : Type 0 where
  pub format_float : F → String
  pub parse_float : String → Result F
  pub format_time : Time → String
  pub parse_time : String → Result Time

module _ {F : Type 0} (fl : Floats F) (text : TextFormat F) (client : RedisClient)
    (r : RedisMetricsCache) where
  abbrev pub set_metric : String → String → Action client.St (Unit {0})
  set_metric key value = wrapping "не удалось сохранить в кэш" (client.set key value r.ttl)

  unfoldable pub set_metrics : Metrics F → Action client.St (Unit {0})
  set_metrics m = do
    set_metric (r.prefix ++ "cpu") (text.format_float m.cpu_usage)
    set_metric (r.prefix ++ "mem_used") (text.format_float m.mem_used_mb)
    set_metric (r.prefix ++ "mem_total") (text.format_float m.mem_total_mb)
    set_metric (r.prefix ++ "disk_used") (text.format_float m.disk_used)
    set_metric (r.prefix ++ "disk_total") (text.format_float m.disk_total)
    set_metric (r.prefix ++ "timestamp") (text.format_time m.timestamp)

  -- The reply to `GET`: a missing key is a cache miss, and the text is parsed.
  abbrev pub parsed_reply :
      {A : Type 0} → String → String → (String → Result A) → Result String → Result A
  parsed_reply get_m parse_m parse (err e) =
      if errors_is e redis_nil then err (sentinel cache_miss) else err (Error.wrap get_m e)
  parsed_reply get_m parse_m parse (ok v) = elim (parse v) [
    | ok x ↦ ok x
    | err e ↦ err (Error.wrap parse_m e)
  ]

  abbrev pub get_float_metric : String → Action client.St F
  get_float_metric key s =
      let (res, s') = client.get key s in
      (parsed_reply "не удалось получить из кэша" "не удалось распарсить" text.parse_float res, s')

  abbrev pub get_timestamp : Action client.St Time
  get_timestamp s =
      let (res, s') = client.get (r.prefix ++ "timestamp") s in
      (
        parsed_reply "не удалось получить Timestamp из кэша" "не удалось распарсить Timestamp"
            text.parse_time res,
        s',
      )

  abbrev pub share : F → F → F
  share used total = fl.mul (fl.div used total) (fl.of_ℕ 100)

  -- The derived values, once everything is read.
  abbrev pub completed : F → F → F → F → F → Time → Result (Metrics F)
  completed cpu mem_used mem_total disk_used disk_total at =
      if fl.is_zero mem_total
      then err (message "memTotal равен нулю")
      else if fl.is_zero disk_total
      then err (message "diskTotal равен нулю")
      else ok (record {
        cpu_usage = cpu;
        mem_usage = share mem_used mem_total;
        mem_used_mb = mem_used;
        mem_total_mb = mem_total;
        disk_usage = share disk_used disk_total;
        disk_used = disk_used;
        disk_total = disk_total;
        timestamp = at;
      })

  unfoldable pub get_metrics : Action client.St (Metrics F)
  get_metrics = do
    cpu ← get_float_metric (r.prefix ++ "cpu")
    mem_used ← get_float_metric (r.prefix ++ "mem_used")
    mem_total ← get_float_metric (r.prefix ++ "mem_total")
    disk_used ← get_float_metric (r.prefix ++ "disk_used")
    disk_total ← get_float_metric (r.prefix ++ "disk_total")
    at ← get_timestamp
    λ s. (completed cpu mem_used mem_total disk_used disk_total at, s)
