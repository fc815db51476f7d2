-- ===== src/Storage.antt =====
-- internal/storage/repository.go. `database/sql` with the SQLite driver is the parameter `sql`: one
-- call for each statement of the source. The timeout of a second on each call is left out.
pub mod Connection
pub mod Table
pub mod ActiveRows
pub mod Contract
pub mod Listing
use server_watch.Base.{
  ℕ, Bool, true, false, Option, none, some, List, [], ◌∷◌, String, Error, no_rows, errors_is, wrap,
  Result, ok, err, Action, wrapping, if◌then◌else◌,
}
use server_watch.Base.Int.{ℤ}
use server_watch.Model.{Floats, Time, AlertType, Metrics, Alert}
use server_watch.System.Interfaces.{Repository}

-- What is inserted into `metrics`, and what a query reads from it.
pub record NewMetricsRow (F : Type 0) : Type 0 where
  pub ts : Time
  pub cpu : F
  pub mem_used_mb : ℤ
  pub mem_total_mb : ℤ
  pub disk_used_gb : ℤ
  pub disk_total_gb : ℤ

pub record MetricsRow (F : Type 0) : Type 0 where
  pub ts : Time
  pub cpu : F
  pub mem_used_mb : F
  pub mem_total_mb : F
  pub disk_used_gb : F
  pub disk_total_gb : F

pub record AlertRow (F : Type 0) : Type 0 where
  pub id : ℕ
  pub ts : Time
  pub kind : AlertType
  pub threshold : F
  pub value : F
  pub resolved : Bool
  pub resolved_ts : Option Time

-- `sql.Rows`: what `Scan` gives at each row, and `Err` at the end.
pub record Rows (R : Type 0) : Type 0 where
  pub scans : List (Result R)
  pub end : Option Error

-- The statements. The id in a row that is inserted is not used; the outer result of `insert_alert`
-- is that of the statement, and the inner one that of `LastInsertId`.
pub record Sql (F : Type 0) : Type 1 where
  pub Db : Type 0
  pub insert_metrics : NewMetricsRow F → Action Db (Unit {0})
  pub insert_alert : AlertRow F → Action Db (Result ℕ)
  pub select_metrics : Time → Time → Action Db (Rows (MetricsRow F))
  pub select_alerts : Bool → Action Db (Rows (AlertRow F))
  pub update_resolved : ℕ → Time → Action Db (Unit {0})
  pub select_active : AlertType → Action Db (AlertRow F)

-- The loop over `rows.Next()`, and the test of `rows.Err()`.
abbrev pub scan_all :
    {R A : Type 0} → String → (R → A) → List (Result R) → Option Error → Result (List A)
scan_all m f [] none = ok []
scan_all m f [] (some e) = err (wrap m e)
scan_all m f (err e ∷ rest) end = err (wrap m e)
scan_all m f (ok r ∷ rest) end = elim (scan_all m f rest end) [
  | ok found ↦ ok (f r ∷ found)
  | err e ↦ err e
]

abbrev pub alert_of_row : {F : Type 0} → AlertRow F → Alert F
alert_of_row r = record {
  id = r.id;
  kind = r.kind;
  timestamp = r.ts;
  threshold = r.threshold;
  resolved = r.resolved;
  resolved_at = r.resolved_ts;
  value = r.value;
}

abbrev pub row_of_alert : {F : Type 0} → Alert F → AlertRow F
row_of_alert a = record {
  id = a.id;
  ts = a.timestamp;
  kind = a.kind;
  threshold = a.threshold;
  value = a.value;
  resolved = a.resolved;
  resolved_ts = a.resolved_at;
}

module _ {F : Type 0} (fl : Floats F) (sql : Sql F) where
  abbrev pub percent : F → F → F
  percent used total = fl.mul (fl.div used total) (fl.of_ℕ 100)

  abbrev pub metrics_of_row : MetricsRow F → Metrics F
  metrics_of_row r = record {
    cpu_usage = r.cpu;
    mem_usage = percent r.mem_used_mb r.mem_total_mb;
    mem_used_mb = r.mem_used_mb;
    mem_total_mb = r.mem_total_mb;
    disk_usage = percent r.disk_used_gb r.disk_total_gb;
    disk_used = r.disk_used_gb;
    disk_total = r.disk_total_gb;
    timestamp = r.ts;
  }

  unfoldable pub save_metrics : Metrics F → Action sql.Db (Unit {0})
  save_metrics m = wrapping "не удалось сохранить метрики в базу данных SQLite" (
      sql.insert_metrics (record {
        ts = m.timestamp;
        cpu = m.cpu_usage;
        mem_used_mb = fl.to_int64 m.mem_used_mb;
        mem_total_mb = fl.to_int64 m.mem_total_mb;
        disk_used_gb = fl.to_int64 m.disk_used;
        disk_total_gb = fl.to_int64 m.disk_total;
      }))

  abbrev pub inserted_id : Result (Result ℕ) → Result ℕ
  inserted_id (err e) = err (wrap "не удалось сохранить алерт в базу данных SQLite" e)
  inserted_id (ok (err e)) = err (wrap "не удалось получить id добавленного алерта" e)
  inserted_id (ok (ok id)) = ok id

  unfoldable pub save_alert : Alert F → Action sql.Db ℕ
  save_alert a s = let (r, s') = sql.insert_alert (row_of_alert a) s in (inserted_id r, s')

  -- The result of a query: no rows are no error.
  abbrev pub read_rows :
      {R A : Type 0} → String → String → (R → A) → Result (Rows R) → Result (List A)
  read_rows query_m scan_m f (err e) = if errors_is e no_rows then ok [] else err (wrap query_m e)
  read_rows query_m scan_m f (ok rows) = scan_all scan_m f rows.scans rows.end

  unfoldable pub get_metrics : Time → Time → Action sql.Db (List (Metrics F))
  get_metrics from to s =
      let (r, s') = sql.select_metrics from to s in
      (
        read_rows "не удалось получить список метрик из базы данных SQLite"
            "не удалось прочитать метрику из базы данных SQLite" metrics_of_row r,
        s',
      )

  unfoldable pub get_alerts : Bool → Action sql.Db (List (Alert F))
  get_alerts active_only s =
      let (r, s') = sql.select_alerts active_only s in
      (
        read_rows "не удалось получить список алертов из базы данных SQLite"
            "не удалось прочитать алерт из базы данных SQLite" alert_of_row r,
        s',
      )

  unfoldable pub resolve_alert : ℕ → Time → Action sql.Db (Unit {0})
  resolve_alert id resolved_at =
      wrapping "не удалось зарезолвить алерт" (sql.update_resolved id resolved_at)

  abbrev pub active_of : Result (AlertRow F) → Result (Option (Alert F))
  active_of (ok r) = ok (some (alert_of_row r))
  active_of (err e) =
      if errors_is e no_rows
      then ok none
      else err (wrap "не удалось получить действующий алерт из базы данных SQLite" e)

  unfoldable pub get_active_alert : AlertType → Action sql.Db (Option (Alert F))
  get_active_alert t s = let (r, s') = sql.select_active t s in (active_of r, s')

  abbrev pub sqlite_repository : Repository F
  sqlite_repository = record {
    St = sql.Db;
    save_metrics = save_metrics;
    save_alert = save_alert;
    get_metrics = get_metrics;
    get_alerts = get_alerts;
    resolve_alert = resolve_alert;
    get_active_alert = get_active_alert;
  }
