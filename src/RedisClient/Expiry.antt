-- ===== src/RedisClient/Expiry.antt =====
-- The behaviour of the key commands with the lifetimes of keys, as documented: `SET` with a lifetime,
-- `INCR`, which keeps one, and `EXPIRE`, which gives a key that is there a new one.
use server_watch.Base.{
  ℕ, zero, suc, ◌+◌, ◌<◌, ◌≤◌, ◌≡◌, ltb, Option, none, some, String, str_eq, ok, if◌then◌else◌,
}
use server_watch.Base.Int.{pos, max_int64}
use server_watch.Model.{Time}
use server_watch.RedisClient.{RedisClient, reply, number}

-- What a key with this text holds at a time, if it is given a lifetime; 0 means none.
abbrev pub lasting : String → Time → Time → Time → Option String
lasting v zero from at = some v
lasting v (suc ttl) from at = if ltb at (from + suc ttl) then some v else none

-- A new text with the lifetime of the old one.
abbrev pub renewed : String → Option String → Option String → Option String
renewed v none later = some v
renewed v (some _) none = none
renewed v (some _) (some _) = some v

abbrev pub extended : Option String → Time → Time → Time → Option String → Option String
extended none ttl from at later = later
extended (some v) ttl from at later = lasting v ttl from at

-- While the server answers (`Up`): `now` is its clock, and `holds s k t` what `k` holds at the time
-- `t`, if nothing is written from `s` on. A call takes no time.
pub record ExpiryLaws (r : RedisClient) : Type 1 where
  pub now : r.St → Time
  pub holds : r.St → String → Time → Option String
  pub Up : r.St → Type 0
  pub get_law :
      (k : String) (s : r.St)
      → Up s
      → (s' : r.St) × (r.get k s ≡ (reply (holds s k (now s)), s'))
        × Up s'
        × (now s' ≡ now s)
        × ((u : String) (t : Time) → holds s' u t ≡ holds s u t)
  pub set_law :
      (k v : String) (ttl : Time) (s : r.St)
      → Up s
      → (s' : r.St) × (r.set k v ttl s ≡ (ok tt, s'))
        × Up s'
        × (now s' ≡ now s)
        × ((u : String) (t : Time)
            → holds s' u t ≡ (if str_eq u k then lasting v ttl (now s) t else holds s u t))
  pub incr_law :
      (k : String) (n : ℕ) (s : r.St)
      → Up s
      → number r.parse_int (holds s k (now s)) ≡ some (pos n)
      → n < max_int64
      → (s' : r.St) × (r.incr k s ≡ (ok (pos (suc n)), s'))
        × Up s'
        × (now s' ≡ now s)
        × ((u : String) (t : Time)
            → holds s' u t ≡ (
                if str_eq u k
                then renewed (r.format_int (pos (suc n))) (holds s k (now s)) (holds s k t)
                else holds s u t))
  pub expire_law :
      (k : String) (ttl : Time) (s : r.St)
      → 0 < ttl
      → Up s
      → (s' : r.St) × (r.expire k ttl s ≡ (ok tt, s'))
        × Up s'
        × (now s' ≡ now s)
        × ((u : String) (t : Time)
            → holds s' u t ≡ (
                if str_eq u k
                then extended (holds s k (now s)) ttl (now s) t (holds s k t)
                else holds s u t))
  pub parse_format : (n : ℕ) → r.parse_int (r.format_int (pos n)) ≡ some (pos n)

-- `span` passes, and nobody writes.
pub record Passes {r : RedisClient} (laws : ExpiryLaws r) (span : Time) (s s' : r.St) : Type 0 where
  pub up : laws.Up s'
  pub later : laws.now s' ≡ laws.now s + span
  pub kept : (k : String) (t : Time) → laws.now s' ≤ t → laws.holds s' k t ≡ laws.holds s k t
