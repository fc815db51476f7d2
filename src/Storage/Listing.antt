-- ===== src/Storage/Listing.antt =====
-- What `GetAlerts` lists. The query has no ORDER BY, so the rows may come in any order.
use server_watch.Base.{
  ◌≡◌, ◌≤◌, refl, ap, ◌∙◌, Bool, true, not, Option, none, some, List, [], ◌∷◌, map, str_eq, length,
  ok, arith, String, if◌then◌else◌, select, select-Permᴰ, select-map, only_order,
}
use mathlib.Core.List.{Permᴰ}
use server_watch.Model.{Floats, AlertType, Alert, valid_alert_type}
use server_watch.Storage.{AlertRow, Sql, alert_of_row, scan_all, get_alerts}
use server_watch.Storage.Table.{find_active, HasOneActive}
use server_watch.Storage.ActiveRows.{SqlLaws, alert_of, one_active}
use server_watch.Storage.Contract.{Ready, active}

-- `resolved = FALSE`
abbrev pub is_open : {F : Type 0} → AlertRow F → Bool
is_open r = not r.resolved

-- The query while the database answers: the rows that it asks for, in some order.
pub record QueryLaws {F : Type 0} (sql : Sql F) (laws : SqlLaws sql) : Type 1 where
  pub select_alerts_law :
      (active_only : Bool) (s : sql.Db)
      → laws.Up s
      → (found : List (AlertRow F)) × (s' : sql.Db) × (sql.select_alerts active_only s
          ≡ (ok (record { scans = map ok found; end = none }), s'))
        × laws.Up s'
        × (laws.rows s' ≡ laws.rows s)
        × Permᴰ found (if active_only then select is_open (laws.rows s) else laws.rows s)

abbrev pub to_list : {A : Type 0} → Option A → List A
to_list none = []
to_list (some x) = x ∷ []

length-to_list : {A : Type 0} (o : Option A) → length (to_list o) ≤ 1
length-to_list none = omega arith
length-to_list (some x) = omega arith

scan_all-ok :
    {R A : Type 0} (m : String) (f : R → A) (found : List R)
    → scan_all m f (map ok found) none ≡ ok (map f found)
scan_all-ok m f [] = refl
scan_all-ok m f (r ∷ found) = rw (scan_all-ok m f found)

module _ {F : Type 0} where
  -- A type's alerts.
  abbrev pub of_type : AlertType → List (Alert F) → List (Alert F)
  of_type t = select (λ a. str_eq a.kind t)

  map-to_list : (o : Option (AlertRow F)) → map alert_of_row (to_list o) ≡ to_list (alert_of o)
  map-to_list none = refl
  map-to_list (some r) = refl

  -- The open rows of a type are its active row.
  select-find_active :
      (t : AlertType) (rows : List (AlertRow F))
      → HasOneActive t rows
      → select (λ r. str_eq r.kind t) (select is_open rows) ≡ to_list (find_active t rows)
  select-find_active t [] one = refl
  select-find_active t (r ∷ rows) one = ground (arith, select-find_active t rows one.1)

module _ {F : Type 0} (fl : Floats F) (sql : Sql F) (laws : SqlLaws sql)
    (queries : QueryLaws sql laws) where
  -- On a database that answers, with unique ids and at most one active row for each type,
  -- `GetAlerts` for the active alerts lists of each valid type exactly the one that is active, and
  -- none if there is no such alert, in whatever order the query gives the rows; the table stays
  -- so, and so do the active alerts.
  pub get_alerts_active :
      (s : sql.Db)
      → Ready fl sql laws s
      → (alerts : List (Alert F)) × (s' : sql.Db) × (get_alerts fl sql true s ≡ (ok alerts, s'))
        × Ready fl sql laws s'
        × ((t : AlertType) → active fl sql laws s' t ≡ active fl sql laws s t)
        × ((t : AlertType)
            → valid_alert_type t ≡ true
            → of_type t alerts ≡ to_list (active fl sql laws s t))
  unfolding get_alerts
  get_alerts_active s (up, sound) =
      let (found, s', e, up', same, order) = queries.select_alerts_law true s up in
      (
        map alert_of_row found,
        s',
        rw (e, scan_all-ok "не удалось прочитать алерт из базы данных SQLite" alert_of_row found),
        (up', rw same sound),
        λ t. rw same,
        λ t v.
            let row = find_active t (laws.rows s) in
            let listed = select-find_active t (laws.rows s) (one_active t (laws.rows s) v sound) in
            let here : select (λ r. str_eq r.kind t) found ≡ to_list row =
              only_order (select-Permᴰ (λ r. str_eq r.kind t) order)
                (rw listed (length-to_list row))
              ∙ listed in
            select-map (λ a. str_eq a.kind t) alert_of_row found
            ∙ ap (map alert_of_row) here
            ∙ map-to_list row,
      )
