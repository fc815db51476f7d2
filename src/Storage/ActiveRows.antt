-- ===== src/Storage/ActiveRows.antt =====
-- The rows of the table of alerts as the active alerts, and what the statements do to the rows.
use server_watch.Base.{
  ℕ, ◌≡◌, refl, inl, inr, true, false, Option, none, some, List, [], ◌∷◌, ◌++◌, str_eq, str_eq_iff,
  Result, ok, err, sentinel, no_rows, arith, subst, sym, Option-cases, Bool-cases,
}
use server_watch.Model.{
  Time, AlertType, Alert, valid_alert_type, alert_type_high_cpu, alert_type_high_mem,
  valid_alert_type-cases,
}
use server_watch.System.Interfaces.{with_active}
use server_watch.Storage.{NewMetricsRow, AlertRow, Sql, alert_of_row, row_of_alert}
use server_watch.Storage.Table.{
  find_active, resolve_rows, IsNewId, HasUniqueIds, HasOneActive, find_active-append,
  append-HasOneActive, append-HasUniqueIds, find_active-resolve, resolve-HasUniqueIds,
  resolve-HasOneActive,
}

-- The answer to a query for one row.
abbrev pub one_row : {R : Type 0} → Option R → Result R
one_row none = err (sentinel no_rows)
one_row (some r) = ok r

-- The behaviour of the statements while the database answers (`Up`), on the rows of `alerts`, which
-- internal/storage/migrations/001_init.sql creates: only rows of the two types can be inserted. `F`
-- is taken to hold the numbers that SQLite keeps: NaN, which it stores as NULL and the columns then
-- refuse, is not among them.
pub record SqlLaws {F : Type 0} (sql : Sql F) : Type 1 where
  pub rows : sql.Db → List (AlertRow F)
  pub Up : sql.Db → Type 0
  pub insert_metrics_law :
      (m : NewMetricsRow F) (s : sql.Db)
      → Up s
      → (s' : sql.Db) × (sql.insert_metrics m s ≡ (ok tt, s')) × Up s' × (rows s' ≡ rows s)
  pub insert_alert_law :
      (r : AlertRow F) (s : sql.Db)
      → valid_alert_type r.kind ≡ true
      → Up s
      → (id : ℕ) × (s' : sql.Db) × (sql.insert_alert r s ≡ (ok (ok id), s'))
        × Up s'
        × IsNewId id (rows s)
        × (rows s' ≡ rows s ++ record r { id = id } ∷ [])
  pub update_resolved_law :
      (id : ℕ) (at : Time) (s : sql.Db)
      → Up s
      → (s' : sql.Db) × (sql.update_resolved id at s ≡ (ok tt, s'))
        × Up s'
        × (rows s' ≡ resolve_rows id at (rows s))
  pub select_active_law :
      (t : AlertType) (s : sql.Db)
      → Up s
      → (s' : sql.Db) × (sql.select_active t s ≡ (one_row (find_active t (rows s)), s'))
        × Up s'
        × (rows s' ≡ rows s)

module _ {F : Type 0} where
  abbrev pub alert_of : Option (AlertRow F) → Option (Alert F)
  alert_of none = none
  alert_of (some r) = some (alert_of_row r)

  -- Ids are unique, and each type has at most one active row.
  abbrev pub IsSound : List (AlertRow F) → Type 0
  IsSound rs =
      HasUniqueIds rs × HasOneActive alert_type_high_cpu rs × HasOneActive alert_type_high_mem rs

  pub one_active :
      (t : AlertType) (rs : List (AlertRow F))
      → valid_alert_type t ≡ true
      → IsSound rs
      → HasOneActive t rs
  one_active t rs v (uniq, cpu, mem) = elim (valid_alert_type-cases t v) [
    | inl e ↦ rw e cpu
    | inr e ↦ rw e mem
  ]

  -- A new active row keeps the table sound if its type had none.
  pub append-IsSound :
      (r : AlertRow F) (rs : List (AlertRow F))
      → IsSound rs
      → IsNewId r.id rs
      → find_active r.kind rs ≡ none
      → IsSound (rs ++ r ∷ [])
  append-IsSound r rs (uniq, cpu, mem) new quiet = (
    append-HasUniqueIds r rs uniq new,
    append-HasOneActive alert_type_high_cpu r rs cpu
        (λ h. ground (arith, str_eq_iff r.kind alert_type_high_cpu)),
    append-HasOneActive alert_type_high_mem r rs mem
        (λ h. ground (arith, str_eq_iff r.kind alert_type_high_mem)),
  )

  pub resolve-IsSound :
      (id : ℕ) (at : Time) (rs : List (AlertRow F)) → IsSound rs → IsSound (resolve_rows id at rs)
  resolve-IsSound id at rs (uniq, cpu, mem) = (
    resolve-HasUniqueIds id at rs uniq,
    resolve-HasOneActive alert_type_high_cpu id at rs cpu,
    resolve-HasOneActive alert_type_high_mem id at rs mem,
  )

  pub alert_of-none : (o : Option (AlertRow F)) → alert_of o ≡ none → o ≡ none
  alert_of-none none h = refl
  alert_of-none (some r) h = ground arith

  -- The active alerts once the row of a new one is there.
  pub append-alert :
      (a : Alert F) (id : ℕ) (u : AlertType) (rs : List (AlertRow F))
      → a.resolved ≡ false
      → find_active a.kind rs ≡ none
      → alert_of (find_active u (rs ++ record (row_of_alert a) { id = id } ∷ []))
        ≡ with_active a.kind (some (record a { id = id })) (λ t. alert_of (find_active t rs)) u
  append-alert a id u rs open_ free =
      rw (find_active-append u (record (row_of_alert a) { id = id }) rs)
        (elim (Bool-cases (str_eq u a.kind)) [
          | inl e ↦
              let same : u ≡ a.kind = (str_eq_iff u a.kind).0 e in
              let none_yet : find_active u rs ≡ none =
                subst (λ (t : AlertType). find_active t rs ≡ none) (sym same) free in
              let mine : str_eq a.kind u ≡ true = (str_eq_iff a.kind u).1 (sym same) in ground arith
          | inr e ↦ ground (arith, str_eq_iff a.kind u, str_eq_iff u a.kind)
        ])

  pub resolve-alert :
      (t u : AlertType) (a : Alert F) (at : Time) (rs : List (AlertRow F))
      → valid_alert_type t ≡ true
      → alert_of (find_active t rs) ≡ some a
      → IsSound rs
      → alert_of (find_active u (resolve_rows a.id at rs))
        ≡ with_active t none (λ x. alert_of (find_active x rs)) u
  resolve-alert t u a at rs v raised sound = elim (Option-cases (find_active t rs)) [
    | inl e ↦ cc
    | inr (r, e) ↦
        let same : r.id ≡ a.id = ground arith in
        let after = find_active-resolve t u r at rs sound.0 (one_active t rs v sound) e in
        ground arith
  ]
