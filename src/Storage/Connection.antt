-- ===== src/Storage/Connection.antt =====
-- internal/storage/sqlite.go, and `setupDatabase` of cmd/server-watch/main.go. `database/sql` is the
-- parameter `driver`; the text of migrations/001_init.sql is the argument `init_migration`.
use server_watch.Base.{
  ℕ, suc, ◌+◌, ◌-◌, ◌≡◌, String, str_eq, Result, ok, err, Action, wrapping, Result-cases, inl, inr,
  arith, if◌then◌else◌, ◌>>=◌, ◌>>◌, pure,
}

-- A `*sql.DB` is a `Handle`.
pub record Driver : Type 1 where
  pub St : Type 0
  pub Handle : Type 0
  pub open_handle : String → Action St Handle
  pub ping : Handle → Action St (Unit {0})
  pub exec : Handle → String → Action St (Unit {0})
  pub close_handle : Handle → St → St

-- `os.Getenv` with a default.
abbrev pub or_default : String → String → String
or_default default value = if str_eq value "" then default else value

module _ (driver : Driver) where
  -- `if err != nil { db.Close(); return … }`
  abbrev pub or_close : {A : Type 0} → driver.Handle → Action driver.St A → Action driver.St A
  or_close db act s =
      let (r, s') = act s in
      elim r [ ok a ↦ (ok a, s') | err e ↦ (err e, driver.close_handle db s') ]

  unfoldable pub new_sqlite : String → Action driver.St driver.Handle
  new_sqlite path = do
    db ← wrapping "не удалось подключиться к базе данных" (driver.open_handle path)
    or_close db (wrapping "не удалось установить соединение с базой данных" (driver.ping db))
    or_close db (wrapping "не удалось включить WAL" (driver.exec db "PRAGMA journal_mode=WAL;"))
    pure db

  module _ (init_migration : String) where
    unfoldable pub migrate : driver.Handle → Action driver.St (Unit {0})
    migrate db = wrapping "не удалось применить миграцию" (driver.exec db init_migration)

    -- `db_path` is the value of `DB_PATH`.
    unfoldable pub setup_database : String → Action driver.St driver.Handle
    setup_database db_path = do
      db ← new_sqlite (or_default "server-watch.db" db_path)
      or_close db (migrate db)
      pure db

-- An observer of the handles: it counts those that are open.
abbrev pub counting : Driver → Driver
counting driver = record {
  St = driver.St × ℕ;
  Handle = driver.Handle;
  open_handle = λ path (s, n).
      let (r, s') = driver.open_handle path s in
      elim r [ ok db ↦ (ok db, (s', suc n)) | err e ↦ (err e, (s', n)) ];
  ping = λ db (s, n). let (r, s') = driver.ping db s in (r, (s', n));
  exec = λ db text (s, n). let (r, s') = driver.exec db text s in (r, (s', n));
  close_handle = λ db (s, n). (driver.close_handle db s, n - 1);
}

-- How many handles a result holds.
abbrev pub held : {A : Type 0} → Result A → ℕ
held (ok _) = 1
held (err _) = 0

module _ (driver : Driver) where
  new_sqlite-held :
      (path : String) (s : driver.St) (n : ℕ)
      → let (r, s') = new_sqlite (counting driver) path (s, n) in s'.1 ≡ held r + n
  unfolding new_sqlite
  new_sqlite-held path s n = ground arith

  -- However the calls of the database turn out, `setupDatabase` leaves exactly one more handle
  -- open if it succeeds, and none if it fails.
  pub setup_database-held :
      (init_migration db_path : String) (s : driver.St) (n : ℕ)
      → let (r, s') = setup_database (counting driver) init_migration db_path (s, n) in
        s'.1 ≡ held r + n
  unfolding setup_database migrate
  setup_database-held init_migration db_path s n =
      elim (Result-cases
        (new_sqlite (counting driver) (or_default "server-watch.db" db_path) (s, n)).0) [
          | inl (db, opened) ↦
              ground (arith, opened, new_sqlite-held (or_default "server-watch.db" db_path) s n)
          | inr (e, failed) ↦
              ground (arith, failed, new_sqlite-held (or_default "server-watch.db" db_path) s n)
        ]
