-- ===== src/Cache/RoundTrip.antt =====
-- Writing the metrics cache and reading it back.
use Prim.Native.String.{◌++◌}
use server_watch.Base.{◌≡◌, false, some, String, ok, arith, ap}
use server_watch.Model.{Floats, Time, Metrics}
use server_watch.RedisClient.{RedisClient, RedisLaws}
use server_watch.Alerts.Redis.Keys.{str_eq-prefix}
use server_watch.Cache.{
  RedisMetricsCache, TextFormat, set_metrics, get_metrics, get_float_metric, get_timestamp, share,
}

module _ {F : Type 0} (fl : Floats F) (text : TextFormat F) (client : RedisClient)
    (laws : RedisLaws client) (r : RedisMetricsCache) where
  open laws use {value, Up, get_law, set_law}

  -- What the six keys hold for `m`.
  pub record Holds (m : Metrics F) (s : client.St) : Type 0 where
    pub cpu : value s (r.prefix ++ "cpu") ≡ some (text.format_float m.cpu_usage)
    pub mem_used : value s (r.prefix ++ "mem_used") ≡ some (text.format_float m.mem_used_mb)
    pub mem_total : value s (r.prefix ++ "mem_total") ≡ some (text.format_float m.mem_total_mb)
    pub disk_used : value s (r.prefix ++ "disk_used") ≡ some (text.format_float m.disk_used)
    pub disk_total : value s (r.prefix ++ "disk_total") ≡ some (text.format_float m.disk_total)
    pub timestamp : value s (r.prefix ++ "timestamp") ≡ some (text.format_time m.timestamp)

  pub set_metrics-Holds :
      (m : Metrics F) (s : client.St)
      → Up s
      → (s' : client.St) × (set_metrics fl text client r m s ≡ (ok tt, s')) × Up s' × Holds m s'
  unfolding set_metrics
  set_metrics-Holds m s up =
      let (s1, e1, u1, v1) =
        set_law (r.prefix ++ "cpu") (text.format_float m.cpu_usage) r.ttl s up in
      let (s2, e2, u2, v2) =
        set_law (r.prefix ++ "mem_used") (text.format_float m.mem_used_mb) r.ttl s1 u1 in
      let (s3, e3, u3, v3) =
        set_law (r.prefix ++ "mem_total") (text.format_float m.mem_total_mb) r.ttl s2 u2 in
      let (s4, e4, u4, v4) =
        set_law (r.prefix ++ "disk_used") (text.format_float m.disk_used) r.ttl s3 u3 in
      let (s5, e5, u5, v5) =
        set_law (r.prefix ++ "disk_total") (text.format_float m.disk_total) r.ttl s4 u4 in
      let (s6, e6, u6, v6) =
        set_law (r.prefix ++ "timestamp") (text.format_time m.timestamp) r.ttl s5 u5 in
      (
        s6,
        ground arith,
        u6,
        record {
          cpu = rw (v6, v5, v4, v3, v2, v1) (simp str_eq-prefix);
          mem_used = rw (v6, v5, v4, v3, v2) (simp str_eq-prefix);
          mem_total = rw (v6, v5, v4, v3) (simp str_eq-prefix);
          disk_used = rw (v6, v5, v4) (simp str_eq-prefix);
          disk_total = rw (v6, v5) (simp str_eq-prefix);
          timestamp = rw v6 (simp str_eq-prefix);
        },
      )

  -- A value that the key holds and that is read back.
  get_float_metric_ok :
      (k v : String) (x : F) (s : client.St)
      → Up s
      → value s k ≡ some v
      → text.parse_float v ≡ ok x
      → (s' : client.St) × (get_float_metric fl text client r k s ≡ (ok x, s'))
        × Up s'
        × (value s' ≡ value s)
  get_float_metric_ok k v x s up h p =
      let (s', e, up', val) = get_law k s up in (s', ground arith, up', val)

  get_timestamp_ok :
      (v : String) (at : Time) (s : client.St)
      → Up s
      → value s (r.prefix ++ "timestamp") ≡ some v
      → text.parse_time v ≡ ok at
      → (s' : client.St) × (get_timestamp fl text client r s ≡ (ok at, s'))
        × Up s'
        × (value s' ≡ value s)
  get_timestamp_ok v at s up h p =
      let (s', e, up', val) = get_law (r.prefix ++ "timestamp") s up in (s', ground arith, up', val)

  -- The metrics whose values are read back as they were written.
  pub record IsExact (m : Metrics F) : Type 0 where
    pub cpu : text.parse_float (text.format_float m.cpu_usage) ≡ ok m.cpu_usage
    pub mem_used : text.parse_float (text.format_float m.mem_used_mb) ≡ ok m.mem_used_mb
    pub mem_total : text.parse_float (text.format_float m.mem_total_mb) ≡ ok m.mem_total_mb
    pub disk_used : text.parse_float (text.format_float m.disk_used) ≡ ok m.disk_used
    pub disk_total : text.parse_float (text.format_float m.disk_total) ≡ ok m.disk_total
    pub timestamp : text.parse_time (text.format_time m.timestamp) ≡ ok m.timestamp
    pub mem_nonzero : fl.is_zero m.mem_total_mb ≡ false
    pub disk_nonzero : fl.is_zero m.disk_total ≡ false

  -- Reading the six keys.
  pub get_metrics-Holds :
      (m : Metrics F) (s : client.St)
      → Up s
      → Holds m s
      → IsExact m
      → (get_metrics fl text client r s).0
        ≡ ok (record m {
          mem_usage = share fl text client r m.mem_used_mb m.mem_total_mb;
          disk_usage = share fl text client r m.disk_used m.disk_total;
        })
  unfolding get_metrics
  get_metrics-Holds m s u0 h x =
      let (s1, e1, u1, v1) =
        get_float_metric_ok (r.prefix ++ "cpu") _ m.cpu_usage s u0 h.cpu x.cpu in
      let (s2, e2, u2, v2) =
        get_float_metric_ok (r.prefix ++ "mem_used") _ m.mem_used_mb s1 u1 (rw v1 h.mem_used)
          x.mem_used in
      let (s3, e3, u3, v3) =
        get_float_metric_ok (r.prefix ++ "mem_total") _ m.mem_total_mb s2 u2
          (rw (v2, v1) h.mem_total) x.mem_total in
      let (s4, e4, u4, v4) =
        get_float_metric_ok (r.prefix ++ "disk_used") _ m.disk_used s3 u3
          (rw (v3, v2, v1) h.disk_used) x.disk_used in
      let (s5, e5, u5, v5) =
        get_float_metric_ok (r.prefix ++ "disk_total") _ m.disk_total s4 u4
          (rw (v4, v3, v2, v1) h.disk_total) x.disk_total in
      let (s6, e6, u6, v6) =
        get_timestamp_ok _ m.timestamp s5 u5 (rw (v5, v4, v3, v2, v1) h.timestamp) x.timestamp in
      let totals = x.mem_nonzero in let disks = x.disk_nonzero in ground arith

  -- While Redis answers and no key expires, and for metrics whose values are read back from their
  -- texts as they were and whose totals are not zero, `GetMetrics` after `SetMetrics` returns them
  -- with the memory and disk usage computed from the used and total values.
  pub get_metrics-set_metrics :
      (m : Metrics F) (s : client.St)
      → Up s
      → IsExact m
      → (get_metrics fl text client r (set_metrics fl text client r m s).1).0
        ≡ ok (record m {
          mem_usage = share fl text client r m.mem_used_mb m.mem_total_mb;
          disk_usage = share fl text client r m.disk_used m.disk_total;
        })
  get_metrics-set_metrics m s up x =
      let (s0, written, u0, h) = set_metrics-Holds m s up in
      rw (ap (λ z. z.1) written) (get_metrics-Holds m s0 u0 h x)
