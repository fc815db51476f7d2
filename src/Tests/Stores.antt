-- ===== src/Tests/Stores.antt =====
-- Numbers, a repository in memory, and the in-memory alert states.
use server_watch.Base.{
  ℕ, suc, ◌+◌, ◌*◌, ◌/◌, ltb, ◌==◌, ◌≡◌, refl, Bool, false, Option, none, some, List, [], ◌∷◌, ok,
  ◌<◌, ◌++◌, map, err, foreign, arith, select, if◌then◌else◌,
}
use server_watch.Base.Int.{pos}
use server_watch.Model.{Floats, AlertType, Alert, alert_type_high_cpu}
use server_watch.System.Interfaces.{Repository, RepositoryLaws, with_active}
use server_watch.Storage.{AlertRow, Sql, row_of_alert, save_alert, resolve_alert, sqlite_repository}
use server_watch.Storage.Table.{IsNewId, find_active, resolve_rows}
use server_watch.Storage.ActiveRows.{SqlLaws, one_row}
use server_watch.Storage.Contract.{
  sqlite_laws, Ready, active, save_alert_result, resolve_alert_result,
}
use server_watch.Storage.Listing.{is_open}
use server_watch.Alerts.Store.{AlertStateBackend}
use server_watch.Alerts.Fallback.Outage.{Fails}

abbrev pub Number : Type 0
Number = Option ℕ

abbrev pub lift₂ : (ℕ → ℕ → ℕ) → Number → Number → Number
lift₂ f (some a) (some b) = some (f a b)
lift₂ f _ _ = none

abbrev pub less : Number → Number → Bool
less (some a) (some b) = ltb a b
less _ _ = false

abbrev pub numbers : Floats Number
numbers = record {
  lt = less;
  is_zero = λ x. elim x [ some n ↦ n == 0 | none ↦ false ];
  of_ℕ = some;
  mul = lift₂ (λ a b. a * b);
  div = lift₂ (λ a b. a / b);
  to_int64 = λ x. elim x [ some n ↦ pos n | none ↦ pos 0 ];
}

-- A database that is the table of alerts; a new id is larger than all before it.
abbrev pub total : List (AlertRow Number) → ℕ
total [] = 0
total (r ∷ rows) = r.id + total rows

abbrev pub with_id : ℕ → AlertRow Number → AlertRow Number
with_id id r = record r { id = id }

abbrev pub table : Sql Number
table = record {
  Db = List (AlertRow Number);
  insert_metrics = λ m s. (ok tt, s);
  insert_alert = λ r s. (ok (ok (suc (total s))), s ++ with_id (suc (total s)) r ∷ []);
  select_metrics = λ from to s. (ok (record { scans = []; end = none }), s);
  select_alerts = λ active_only s.
      (ok (record { scans = map ok (if active_only then select is_open s else s); end = none }), s);
  update_resolved = λ id at s. (ok tt, resolve_rows id at s);
  select_active = λ t s. (one_row (find_active t s), s);
}

pub total-IsNewId : (k : ℕ) (rows : List (AlertRow Number)) → total rows < k → IsNewId k rows
total-IsNewId k [] h = tt
total-IsNewId k (r ∷ rows) h = (ground arith, total-IsNewId k rows (omega arith))

abbrev pub table_laws : SqlLaws table
table_laws = record {
  rows = λ s. s;
  Up = λ s. Unit {0};
  insert_metrics_law = λ m s up. (s, refl, up, refl);
  insert_alert_law =
      λ r s v up. (suc (total s), _, refl, up, total-IsNewId (suc (total s)) s (omega arith), refl);
  update_resolved_law = λ id at s up. (_, refl, up, refl);
  select_active_law = λ t s up. (s, refl, up, refl);
}

abbrev pub repository : Repository Number
repository = sqlite_repository numbers table

abbrev pub repository_laws : RepositoryLaws repository
repository_laws = sqlite_laws numbers table table_laws

-- A backend of which every call fails.
abbrev pub dead : AlertStateBackend
dead = record {
  St = Unit {0};
  increment_count = λ t c s. (err (foreign 1), s);
  is_active = λ t s. (err (foreign 1), s);
  set_active = λ t b s. (err (foreign 1), s);
  get_state = λ t s. (err (foreign 1), s);
  set_state = λ t new s. (err (foreign 1), s);
}

abbrev pub dead_Fails : Fails dead
dead_Fails = record {
  Down = λ s. Unit {0};
  increment_fails = λ t c s down. (foreign 1, s, refl, down);
  is_active_fails = λ t s down. (foreign 1, s, refl, down);
  set_active_fails = λ t b s down. (foreign 1, s, refl, down);
  set_state_fails = λ t new s down. (foreign 1, s, refl, down);
}

-- An active CPU alert, and its row.
abbrev pub cpu_alert : Alert Number
cpu_alert = record {
  id = 1;
  kind = alert_type_high_cpu;
  timestamp = 5;
  threshold = some 80;
  resolved = false;
  resolved_at = none;
  value = some 95;
}

abbrev pub one_alert : List (AlertRow Number)
one_alert = row_of_alert cpu_alert ∷ []

pub one_alert-Ready : Ready numbers table table_laws one_alert
one_alert-Ready = (tt, ((tt, tt), ((λ _. refl), tt), ((λ _. refl), tt)))

save_alert_result_example :
    (id : ℕ) × (s' : List (AlertRow Number)) × (save_alert numbers table cpu_alert [] ≡ (ok id, s'))
    × Ready numbers table table_laws s'
    × ((u : AlertType)
        → active numbers table table_laws s' u
          ≡ with_active alert_type_high_cpu
              (some (record cpu_alert { id = id }))
              (active numbers table table_laws [])
              u)
save_alert_result_example =
    save_alert_result numbers table table_laws cpu_alert [] refl refl refl (tt, (tt, tt, tt))

resolve_alert_result_example :
    (s' : List (AlertRow Number)) × (resolve_alert numbers table 1 9 one_alert ≡ (ok tt, s'))
    × Ready numbers table table_laws s'
    × ((u : AlertType)
        → active numbers table table_laws s' u
          ≡ with_active alert_type_high_cpu none (active numbers table table_laws one_alert) u)
resolve_alert_result_example =
    resolve_alert_result numbers table table_laws alert_type_high_cpu cpu_alert 9 one_alert refl
      refl one_alert-Ready
