-- ===== src/Service/Process.antt =====
-- `main` of cmd/server-watch/main.go as a whole: what becomes of the database handle. `shutdown` is the
-- result of `server.Shutdown`; the steps from the start to it are those of Service.
use server_watch.Base.{
  ℕ, ◌+◌, ◌≡◌, refl, String, Result, ok, err, Action, arith, Result-cases, inl, inr,
}
use server_watch.Prometheus.Registry.{Collector}
use server_watch.System.Interfaces.{Deps}
use server_watch.System.{Readings}
use server_watch.Storage.Connection.{Driver, setup_database, counting, held, setup_database-held}
use server_watch.Service.{Service, Surroundings, start}

-- `exited` is `os.Exit(1)`, which runs no deferred call.
pub data Ending : Type 0 where
  returned : Ending
  exited : Ending

module _ {F : Type 0} (d : Deps F) (driver : Driver) where
  -- `main` after `setupDatabase`.
  abbrev pub with_database :
      Result (Service d) → Result (Unit {0}) → driver.Handle → driver.St → Ending × driver.St
  with_database (err e) shutdown db s = (exited, s)
  with_database (ok service) (err e) db s = (exited, s)
  with_database (ok service) (ok _) db s = (returned, driver.close_handle db s)

  unfoldable pub main :
      {R : Type 0}
      → (Collector → Action R (Unit {0}))
      → R
      → String
      → String
      → String
      → Readings F
      → Surroundings d
      → Result (Unit {0})
      → driver.St
      → Ending × driver.St
  main register registry init_migration db_path config_path rd x shutdown s =
      let (opened, s') = setup_database driver init_migration db_path s in
      elim opened [
        | err e ↦ (exited, s')
        | ok db ↦ with_database (start d register registry config_path rd x) shutdown db s'
      ]

-- The handles that an ending leaves open, by the result of `setupDatabase`.
abbrev pub left_open : {A : Type 0} → Ending → Result A → ℕ
left_open returned opened = 0
left_open exited opened = held opened

module _ {F : Type 0} (d : Deps F) (driver : Driver) where
  with_database-left_open :
      (started : Result (Service d)) (shutdown : Result (Unit {0})) (db : driver.Handle)
      (s : driver.St) (n : ℕ)
      → let (ending, s') = with_database d (counting driver) started shutdown db (s, 1 + n) in
        s'.1 ≡ left_open ending (ok db) + n
  with_database-left_open (err e) shutdown db s n = refl
  with_database-left_open (ok service) (err e) db s n = refl
  with_database-left_open (ok service) (ok _) db s n = omega arith

  -- However the calls of the database, the start and the shutdown turn out, `main` ends with as
  -- many open database handles as before if it returns or `setupDatabase` fails, and with one more
  -- if it exits after that.
  pub main-left_open :
      {R : Type 0} (register : Collector → Action R (Unit {0})) (registry : R)
      (init_migration db_path config_path : String) (rd : Readings F) (x : Surroundings d)
      (shutdown : Result (Unit {0})) (s : driver.St) (n : ℕ)
      → let opened = (setup_database (counting driver) init_migration db_path (s, n)).0 in
        let (ending, s') =
          main d
            (counting driver)
            register
            registry
            init_migration
            db_path
            config_path
            rd
            x
            shutdown
            (s, n) in
        s'.1 ≡ left_open ending opened + n
  unfolding main
  main-left_open register registry init_migration db_path config_path rd x shutdown s n =
      let held_now = setup_database-held driver init_migration db_path s n in
      let (opened, s') = setup_database (counting driver) init_migration db_path (s, n) in
      elim (Result-cases opened) [
        | inr (e, failed) ↦ ground (arith, failed, held_now)
        | inl (db, fine) ↦ ground (
          arith,
          fine,
          held_now,
          with_database-left_open (start d register registry config_path rd x) shutdown db s'.0 n,
        )
      ]
