-- ===== src/Cache/Torn.antt =====
-- The metrics cache after a `SetMetrics` that failed half way.
use Prim.Native.String.{◌++◌}
use server_watch.Base.{◌≡◌, Error, ok, err, arith, ◌∙◌}
use server_watch.Model.{Floats, Metrics}
use server_watch.RedisClient.{RedisClient, RedisLaws, put}
use server_watch.Alerts.Redis.Keys.{str_eq-prefix}
use server_watch.Cache.{RedisMetricsCache, TextFormat, set_metrics, get_metrics, share}
use server_watch.Cache.RoundTrip.{Holds, IsExact, get_metrics-Holds}

module _ {F : Type 0} (fl : Floats F) (text : TextFormat F) (client : RedisClient)
    (laws : RedisLaws client) (r : RedisMetricsCache) where
  open laws use {value, Up}

  -- Redis stores the first key of `m`, fails at the second one, and answers from then on.
  pub record BreaksOff (m : Metrics F) (s s' : client.St) : Type 0 where
    pub middle : client.St
    pub stored :
        client.set (r.prefix ++ "cpu") (text.format_float m.cpu_usage) r.ttl s ≡ (ok tt, middle)
    pub written : value middle ≡ put (r.prefix ++ "cpu") (text.format_float m.cpu_usage) (value s)
    pub error : Error
    pub fails :
        client.set (r.prefix ++ "mem_used") (text.format_float m.mem_used_mb) r.ttl middle
        ≡ (err error, s')
    pub kept : value s' ≡ value middle
    pub up : Up s'

  -- If the six keys hold metrics, and `SetMetrics` with new ones stores the first key and fails at
  -- the second, then it stops there, and `GetMetrics`, once Redis answers again, returns no error
  -- but the new CPU usage with the memory, the disk and the time of the old metrics, provided that
  -- these values are read back from their texts as they were and that the totals are not zero.
  pub get_metrics_torn :
      (old new : Metrics F) (s s' : client.St)
      → Holds fl text client laws r old s
      → IsExact fl text client laws r (record old { cpu_usage = new.cpu_usage })
      → BreaksOff new s s'
      → ((set_metrics fl text client r new s).1 ≡ s')
        × ((get_metrics fl text client r (set_metrics fl text client r new s).1).0
            ≡ ok (record old {
              cpu_usage = new.cpu_usage;
              mem_usage = share fl text client r old.mem_used_mb old.mem_total_mb;
              disk_usage = share fl text client r old.disk_used old.disk_total;
            }))
  unfolding set_metrics
  get_metrics_torn old new s s' held exact broken =
      let now_holds = broken.kept ∙ broken.written in
      let mixed : Holds fl text client laws r (record old { cpu_usage = new.cpu_usage }) s' =
        record {
          cpu = rw now_holds (simp str_eq-prefix);
          mem_used = rw now_holds (simp str_eq-prefix held.mem_used);
          mem_total = rw now_holds (simp str_eq-prefix held.mem_total);
          disk_used = rw now_holds (simp str_eq-prefix held.disk_used);
          disk_total = rw now_holds (simp str_eq-prefix held.disk_total);
          timestamp = rw now_holds (simp str_eq-prefix held.timestamp);
        } in
      let ends : (set_metrics fl text client r new s).1 ≡ s' =
        ground (arith, broken.stored, broken.fails) in
      (ends, rw ends (get_metrics-Holds fl text client laws r _ s' broken.up mixed exact))
