-- ===== src/Storage/Contract.antt =====
-- The contract of a repository (System/Interfaces) for `sqlite_repository`, over a database whose
-- statements do what they say.
use server_watch.Base.{ℕ, ◌≡◌, refl, true, false, Option, none, some, ok, arith, ap}
use server_watch.Model.{Floats, Time, AlertType, Metrics, Alert, valid_alert_type}
use server_watch.System.Interfaces.{RepositoryLaws, with_active}
use server_watch.Storage.{
  NewMetricsRow, AlertRow, Sql, row_of_alert, save_metrics, save_alert, resolve_alert, active_of,
  get_active_alert, sqlite_repository,
}
use server_watch.Storage.Table.{find_active}
use server_watch.Storage.ActiveRows.{
  one_row, SqlLaws, alert_of, IsSound, append-IsSound, resolve-IsSound, alert_of-none, append-alert,
  resolve-alert,
}

module _ {F : Type 0} (fl : Floats F) (sql : Sql F) (laws : SqlLaws sql) where
  open laws use {rows, Up}

  abbrev pub Ready : sql.Db → Type 0
  Ready s = Up s × IsSound (rows s)

  abbrev pub active : sql.Db → AlertType → Option (Alert F)
  active s t = alert_of (find_active t (rows s))

  -- On a database that answers, with unique ids and at most one active row for each type, and for
  -- numbers that it does not store as NULL, `SaveAlert` of an unresolved alert of a valid type
  -- that has no active alert returns an id, the table stays so, and the active alert of each type
  -- is as before but for this type's, which is the saved one with that id.
  pub save_alert_result :
      (a : Alert F) (s : sql.Db)
      → valid_alert_type a.kind ≡ true
      → a.resolved ≡ false
      → active s a.kind ≡ none
      → Ready s
      → (id : ℕ) × (s' : sql.Db) × (save_alert fl sql a s ≡ (ok id, s'))
        × Ready s'
        × ((u : AlertType)
            → active s' u ≡ with_active a.kind (some (record a { id = id })) (active s) u)
  unfolding save_alert
  save_alert_result a s v open_ quiet (up, sound) =
      let (id, s', e, up', new, it) = laws.insert_alert_law (row_of_alert a) s v up in
      let r : AlertRow F = record (row_of_alert a) { id = id } in
      let free = alert_of-none (find_active a.kind (rows s)) quiet in
      (
        id,
        s',
        rw e,
        (up', rw it (append-IsSound r (rows s) sound new free)),
        λ u. rw it (append-alert a id u (rows s) open_ free),
      )

  active_of-one_row : (o : Option (AlertRow F)) → active_of fl sql (one_row o) ≡ ok (alert_of o)
  active_of-one_row none = refl
  active_of-one_row (some r) = refl

  -- On a database that answers, with unique ids and at most one active row for each type,
  -- `ResolveAlert` of the active alert of a valid type succeeds, the table stays so, that type has
  -- no active alert afterwards, and those of the other types are as before.
  pub resolve_alert_result :
      (t : AlertType) (a : Alert F) (at : Time) (s : sql.Db)
      → valid_alert_type t ≡ true
      → active s t ≡ some a
      → Ready s
      → (s' : sql.Db) × (resolve_alert fl sql a.id at s ≡ (ok tt, s'))
        × Ready s'
        × ((u : AlertType) → active s' u ≡ with_active t none (active s) u)
  unfolding resolve_alert
  resolve_alert_result t a at s v raised (up, sound) =
      let (s', e, up', it) = laws.update_resolved_law a.id at s up in
      (
        s',
        ground arith,
        (up', rw it (resolve-IsSound a.id at (rows s) sound)),
        λ u. rw it (resolve-alert t u a at (rows s) v raised sound),
      )

  pub get_active_alert_result :
      (t : AlertType) (s : sql.Db)
      → Ready s
      → (s' : sql.Db) × (get_active_alert fl sql t s ≡ (ok (active s t), s'))
        × Ready s'
        × ((u : AlertType) → active s' u ≡ active s u)
  unfolding get_active_alert
  get_active_alert_result t s (up, sound) =
      let (s', e, up', it) = laws.select_active_law t s up in
      (
        s',
        rw e (ap (λ x. (x, s')) (active_of-one_row (find_active t (rows s)))),
        (up', rw it sound),
        λ u. rw it,
      )

  abbrev new_row : Metrics F → NewMetricsRow F
  new_row m = record {
    ts = m.timestamp;
    cpu = m.cpu_usage;
    mem_used_mb = fl.to_int64 m.mem_used_mb;
    mem_total_mb = fl.to_int64 m.mem_total_mb;
    disk_used_gb = fl.to_int64 m.disk_used;
    disk_total_gb = fl.to_int64 m.disk_total;
  }

  pub save_metrics_result :
      (m : Metrics F) (s : sql.Db)
      → Ready s
      → (s' : sql.Db) × (save_metrics fl sql m s ≡ (ok tt, s'))
        × Ready s'
        × ((u : AlertType) → active s' u ≡ active s u)
  unfolding save_metrics
  save_metrics_result m s (up, sound) =
      let (s', e, up', it) = laws.insert_metrics_law (new_row m) s up in
      (s', ground arith, (up', rw it sound), λ u. rw it)

  abbrev pub sqlite_laws : RepositoryLaws (sqlite_repository fl sql)
  sqlite_laws = record {
    active = active;
    Ready = Ready;
    save_metrics_law = save_metrics_result;
    get_active_alert_law = λ t s v ready. get_active_alert_result t s ready;
    save_alert_law = λ a s v open_ quiet ready. save_alert_result a s v open_ quiet ready;
    resolve_alert_law = resolve_alert_result;
  }
