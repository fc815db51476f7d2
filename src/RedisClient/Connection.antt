-- ===== src/RedisClient/Connection.antt =====
-- internal/redis/redis.go: the options of the client, and the health check, which only logs.
use server_watch.Base.{ℕ, String, str_eq, List, [], ◌∷◌, Action, if◌then◌else◌}

pub record Options : Type 0 where
  pub addr : String
  pub password : String
  pub db : ℕ

-- `redis_addr` is the value of `REDIS_ADDR`.
unfoldable pub client_options : String → Options
client_options redis_addr = record {
  addr = if str_eq redis_addr "" then "localhost:6379" else redis_addr;
  password = "";
  db = 0;
}

-- One ping for each tick before the context is done, whatever the ping gives.
unfoldable pub redis_health_check : {S : Type 0} → Action S (Unit {0}) → List (Unit {0}) → S → S
redis_health_check ping [] s = s
redis_health_check ping (_ ∷ ticks) s = redis_health_check ping ticks (ping s).1
