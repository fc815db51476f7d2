-- ===== src/Tests/Client.antt =====
-- A Redis server of which the first `GET` may fail. An integer is written in ones, and read as the
-- sum of its digits.
use Prim.Native.Char.{code}
use Prim.Native.String as Text
use server_watch.Base.{
  ℕ, zero, suc, ◌==◌, ◌*◌, ◌+◌, ◌-◌, ◌<◌, ◌≡◌, refl, ap, Bool, true, false, Option, none, some,
  List, [], ◌∷◌, ◌++◌, String, str_eq, str_eq-refl, Result, ok, err, foreign, sentinel, redis_nil,
  if◌then◌else◌, arith,
}
use server_watch.Base.Int.{ℤ, pos, negsuc, inc64, max_int64}
use server_watch.RedisClient.{RedisClient, RedisLaws, reply, number, put, run_calls}
use server_watch.Model.{
  second, AlertType, AlertState, alert_type_high_cpu, alert_type_high_mem, condition_high,
  valid_alert_type,
}
use server_watch.Alerts.Store.{StoreLaws, to_store, with_state}
use server_watch.Alerts.Redis
use server_watch.Alerts.Redis.{RedisAlertStateStore, redis_backend}
use server_watch.Alerts.Redis.View.{IsNumeric}
use server_watch.Alerts.Redis.Contract.{redis_laws, increment_count_writes, set_state_writes}
use server_watch.Notifications.Queue.Order.{ListLaws}

abbrev pub ones : ℕ → String
ones zero = ""
ones (suc n) = Text.◌∷◌ "1" (ones n)

abbrev pub digits : String → ℕ
digits Text.[] = 0
digits (Text.◌∷◌ c rest) = (code c - 48) + digits rest

abbrev pub written : ℤ → String
written (pos zero) = "0"
written (pos (suc n)) = ones (suc n)
written (negsuc n) = "-"

abbrev pub parsed : String → Option ℤ
parsed text = some (pos (digits text))

pub digits-ones : (n : ℕ) → digits (ones n) ≡ n
digits-ones zero = refl
digits-ones (suc n) = omega (arith, digits-ones n)

pub parsed-written : (n : ℕ) → parsed (written (pos n)) ≡ some (pos n)
parsed-written zero = refl
parsed-written (suc n) = ap (λ k. some (pos k)) (digits-ones (suc n))

-- `busy` fails the next `GET`.
pub record Server : Type 0 where
  pub busy : Bool
  pub values : String → Option String
  pub lists : String → List String

-- All elements but the last, and the last.
abbrev pub unsnoc : List String → Option (List String × String)
unsnoc [] = none
unsnoc (v ∷ vs) = elim (unsnoc vs) [
  | none ↦ some ([], v)
  | some (init, last) ↦ some (v ∷ init, last)
]

pub unsnoc-append : (vs : List String) (v : String) → unsnoc (vs ++ v ∷ []) ≡ some (vs, v)
unsnoc-append [] v = refl
unsnoc-append (x ∷ vs) v = rw (unsnoc-append vs v)

abbrev pub put_list : String → List String → Server → Server
put_list k vs s = record s { lists = λ u. if str_eq u k then vs else s.lists u }

abbrev pub incremented : String → Option ℤ → Server → Result ℤ × Server
incremented k none s = (err (foreign 2), s)
incremented k (some z) s = (ok (inc64 z), record s { values = put k (written (inc64 z)) s.values })

abbrev pub popped : String → Option (List String × String) → Server → Result (List String) × Server
popped k none s = (err (sentinel redis_nil), s)
popped k (some (init, last)) s = (ok (k ∷ last ∷ []), put_list k init s)

abbrev pub server : RedisClient
server = record {
  St = Server;
  get = λ k s.
      if s.busy then (err (foreign 1), record s { busy = false }) else (reply (s.values k), s);
  set = λ k v ttl s. (ok tt, record s { values = put k v s.values });
  incr = λ k s. incremented k (number parsed (s.values k)) s;
  expire = λ k ttl s. (ok tt, s);
  eval = λ calls s. (ok tt, record s { values = run_calls calls s.values });
  rpush = λ k v s. (ok tt, put_list k (s.lists k ++ v ∷ []) s);
  brpop = λ t k s. popped k (unsnoc (s.lists k)) s;
  format_int = written;
  parse_int = parsed;
}

pub increments :
    (k : String) (n : ℕ) (s : Server)
    → number parsed (s.values k) ≡ some (pos n)
    → n < max_int64
    → server.incr k s
      ≡ (ok (pos (suc n)), record s { values = put k (written (pos (suc n))) s.values })
increments k n s num lt = let inside : (n == max_int64) ≡ false = ground arith in rw (num, inside)

abbrev pub server_laws : RedisLaws server
server_laws = record {
  value = λ s. s.values;
  Up = λ s. s.busy ≡ false;
  get_law = λ k s up. (s, rw up, up, refl);
  set_law = λ k v ttl s up. (_, refl, up, refl);
  incr_law = λ k n s up num lt. (_, increments k n s num lt, up, refl);
  expire_law = λ k ttl s p up. (s, refl, up, refl);
  eval_law = λ calls s p up. (_, refl, up, refl);
  parse_format = parsed-written;
  format_zero = refl;
  format_one = refl;
}

pub pops :
    (k v : String) (vs : List String) (s : Server)
    → s.lists k ≡ vs ++ v ∷ []
    → popped k (unsnoc (s.lists k)) s ≡ (ok (k ∷ v ∷ []), put_list k vs s)
pops k v vs s it = rw (it, unsnoc-append vs v)

pub pops_empty :
    (k : String) (s : Server)
    → s.lists k ≡ []
    → popped k (unsnoc (s.lists k)) s ≡ (err (sentinel redis_nil), s)
pops_empty k s it = rw it

abbrev pub list_laws : ListLaws server
list_laws = record {
  items = λ s. s.lists;
  Up = λ s. Unit {0};
  rpush_law = λ k v s up. (_, refl, up, rw (str_eq-refl k));
  brpop_law = λ t k v vs s up it. (put_list k vs s, pops k v vs s it, up, rw (str_eq-refl k));
  brpop_empty = λ t k s up it. (s, pops_empty k s it, up, it);
}

abbrev pub no_keys : Server
no_keys = record { busy = false; values = λ k. none; lists = λ k. [] }

abbrev pub redis : RedisAlertStateStore
redis = record { ttl = 3600 * second; prefix = "watch:" }

abbrev pub states : StoreLaws (to_store (redis_backend server redis))
states = redis_laws server server_laws redis (omega arith)

abbrev pub IsServing : Server → Type 0
IsServing s =
    (s.busy ≡ false)
    × ((u : AlertType) → valid_alert_type u ≡ true → IsNumeric parsed "watch:" s.values u)

pub no_keys-IsServing : IsServing no_keys
no_keys-IsServing = (refl, λ u v. refl)

increment_count_writes_example :
    (s' : Server) × (Redis.increment_count server redis alert_type_high_cpu condition_high no_keys
      ≡ (ok (pos 1), s'))
    × IsServing s'
    × ((u : AlertType)
        → valid_alert_type u ≡ true
        → states.view s' u
          ≡ with_state alert_type_high_cpu
              (record { count = pos 1; condition = condition_high; active = false })
              (states.view no_keys)
              u)
increment_count_writes_example =
    increment_count_writes server server_laws redis alert_type_high_cpu condition_high no_keys
      (omega arith) refl no_keys-IsServing (refl, omega arith)

abbrev pub counted : AlertState
counted = record { count = pos 2; condition = condition_high; active = true }

set_state_writes_example :
    (s' : Server) × (Redis.set_state server redis alert_type_high_mem counted no_keys ≡ (ok tt, s'))
    × IsServing s'
    × ((u : AlertType)
        → valid_alert_type u ≡ true
        → states.view s' u ≡ with_state alert_type_high_mem counted (states.view no_keys) u)
set_state_writes_example =
    set_state_writes server server_laws redis alert_type_high_mem counted no_keys (omega arith) refl
      no_keys-IsServing refl
