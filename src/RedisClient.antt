-- ===== src/RedisClient.antt =====
-- The calls that internal/redis makes of a Redis server through github.com/redis/go-redis/v9,
-- which is not part of the repository: a parameter, with the documented behaviour of the commands
-- as laws. A command's outcome may depend on the server and the network, which are in `St`.
pub mod Connection
pub mod Expiry
use server_watch.Base.{
  All, ℕ, suc, ◌<◌, ◌≡◌, Option, none, some, List, [], ◌∷◌, String, str_eq, Action, Result, ok, err,
  sentinel, redis_nil, if◌then◌else◌,
}
use server_watch.Base.Int.{ℤ, pos, ◌≤ℤ◌, max_int64}
use server_watch.Model.{Time}

-- A call inside a script: `SET k v EX seconds` and `SET k v`.
pub data ScriptCall : Type 0 where
  set_ex : String → String → ℤ → ScriptCall
  set_plain : String → String → ScriptCall

-- `get` of a key that is not there is the error `redis.Nil`. A lifetime of 0 means none.
-- `format_int` is the text that the client sends for an integer, and `parse_int` what the server
-- reads as one. `eval` runs a script, all or nothing. `rpush` appends to a list, `brpop` takes the
-- last element of a list (`redis.Nil` on an empty one, after the waiting time) and returns the
-- list's key before it.
pub record RedisClient : Type 1 where
  pub St : Type 0
  pub get : String → Action St String
  pub set : String → String → Time → Action St (Unit {0})
  pub incr : String → Action St ℤ
  pub expire : String → Time → Action St (Unit {0})
  pub eval : List ScriptCall → Action St (Unit {0})
  pub rpush : String → String → Action St (Unit {0})
  pub brpop : Time → String → Action St (List String)
  pub format_int : ℤ → String
  pub parse_int : String → Option ℤ

-- The reply to `GET`.
abbrev pub reply : Option String → Result String
reply none = err (sentinel redis_nil)
reply (some v) = ok v

-- The integer that `INCR` starts from.
abbrev pub number : (String → Option ℤ) → Option String → Option ℤ
number parse none = some (pos 0)
number parse (some v) = parse v

abbrev pub put : String → String → (String → Option String) → String → Option String
put k v m u = if str_eq u k then some v else m u

-- The call has a lifetime that Redis takes.
abbrev pub IsPossible : ScriptCall → Type 0
IsPossible (set_ex k v seconds) = pos 1 ≤ℤ seconds
IsPossible (set_plain k v) = Unit

-- What a script does to the keys.
abbrev pub run_calls : List ScriptCall → (String → Option String) → String → Option String
run_calls [] m = m
run_calls (set_ex k v seconds ∷ rest) m = run_calls rest (put k v m)
run_calls (set_plain k v ∷ rest) m = run_calls rest (put k v m)

-- The behaviour of the key commands while the server answers (`Up`). `value` is what a key holds,
-- and no key expires. A lifetime is given as more than 0: `EXPIRE` with 0 deletes the key, and `SET`
-- with `EX 0` is refused.
pub record RedisLaws (r : RedisClient) : Type 1 where
  pub value : r.St → String → Option String
  pub Up : r.St → Type 0
  pub get_law :
      (k : String) (s : r.St)
      → Up s
      → (s' : r.St) × (r.get k s ≡ (reply (value s k), s')) × Up s' × (value s' ≡ value s)
  pub set_law :
      (k v : String) (ttl : Time) (s : r.St)
      → Up s
      → (s' : r.St) × (r.set k v ttl s ≡ (ok tt, s')) × Up s' × (value s' ≡ put k v (value s))
  pub incr_law :
      (k : String) (n : ℕ) (s : r.St)
      → Up s
      → number r.parse_int (value s k) ≡ some (pos n)
      → n < max_int64
      → (s' : r.St) × (r.incr k s ≡ (ok (pos (suc n)), s'))
        × Up s'
        × (value s' ≡ put k (r.format_int (pos (suc n))) (value s))
  pub expire_law :
      (k : String) (ttl : Time) (s : r.St)
      → 0 < ttl
      → Up s
      → (s' : r.St) × (r.expire k ttl s ≡ (ok tt, s')) × Up s' × (value s' ≡ value s)
  pub eval_law :
      (calls : List ScriptCall) (s : r.St)
      → All IsPossible calls
      → Up s
      → (s' : r.St) × (r.eval calls s ≡ (ok tt, s'))
        × Up s'
        × (value s' ≡ run_calls calls (value s))
  pub parse_format : (n : ℕ) → r.parse_int (r.format_int (pos n)) ≡ some (pos n)
  pub format_zero : r.format_int (pos 0) ≡ "0"
  pub format_one : r.format_int (pos 1) ≡ "1"
