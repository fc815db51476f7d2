-- ===== src/Alerts/Redis/View.antt =====
-- The alert states that the Redis keys hold, and what a change of a key does to them.
use Prim.Native.String.{◌++◌}
use server_watch.Base.{
  ℕ, ◌≡◌, refl, Option, none, some, Bool, true, String, str_eq, inl, inr, if◌then◌else◌,
}
use server_watch.Base.Int.{ℤ, pos}
use server_watch.Model.{
  AlertType, AlertState, valid_alert_type, valid_alert_type-cases, alert_type_high_cpu,
  alert_type_high_mem,
}
use server_watch.RedisClient.{put, number}
use server_watch.Alerts.Redis.Keys.{str_eq-key}

-- The middle part of an alert's keys.
abbrev pub key_name : AlertType → String
key_name t = if str_eq t alert_type_high_cpu then "cpu:" else "mem:"

abbrev pub text_of : Option String → String
text_of none = ""
text_of (some v) = v

abbrev pub int_of : Option ℤ → ℤ
int_of none = pos 0
int_of (some n) = n

abbrev pub cond_key : String → AlertType → String
cond_key p t = p ++ key_name t ++ "condition"

abbrev pub count_key : String → AlertType → String
count_key p t = p ++ key_name t ++ "count"

abbrev pub active_key : String → AlertType → String
active_key p t = p ++ key_name t ++ "active"

-- Two types of alert are the four cases that the keys are compared in.
pub by_types :
    (P : AlertType → AlertType → Type 0)
    → P alert_type_high_cpu alert_type_high_cpu
    → P alert_type_high_cpu alert_type_high_mem
    → P alert_type_high_mem alert_type_high_cpu
    → P alert_type_high_mem alert_type_high_mem
    → (t u : AlertType) → valid_alert_type t ≡ true
    → valid_alert_type u ≡ true
    → P t u
by_types P cc cm mc mm t u a b = elim (valid_alert_type-cases t a) [
  | inl e ↦ elim (valid_alert_type-cases u b) [ inl f ↦ rw (e, f) cc | inr f ↦ rw (e, f) cm ]
  | inr e ↦ elim (valid_alert_type-cases u b) [ inl f ↦ rw (e, f) mc | inr f ↦ rw (e, f) mm ]
]

module _ (parse : String → Option ℤ) (p : String) where
  -- The alert state that the keys of a type hold.
  abbrev pub state_of : (String → Option String) → AlertType → AlertState
  state_of m t = record {
    count = int_of (number parse (m (count_key p t)));
    condition = text_of (m (cond_key p t));
    active = str_eq (text_of (m (active_key p t))) "1";
  }

  -- The counter of a type can be read as an integer.
  abbrev pub IsNumeric : (String → Option String) → AlertType → Type 0
  IsNumeric m t = number parse (m (count_key p t)) ≡ some (state_of m t).count

  -- The change `f` of the keys makes the state of `t` into `new`, and leaves the other type's.
  abbrev pub Sets :
      (String → Option String)
      → (String → Option String)
      → AlertState
      → AlertType
      → AlertType
      → Type 0
  Sets m m' new t u =
      (state_of m' u ≡ (if str_eq u t then new else state_of m u))
      × (IsNumeric m u → IsNumeric m' u)

  module _ (m : String → Option String) where
    pub put-count :
        (v : String) (n : ℕ)
        → parse v ≡ some (pos n)
        → (t u : AlertType) → valid_alert_type t ≡ true
        → valid_alert_type u ≡ true
        → Sets m (put (count_key p t) v m) (record (state_of m t) { count = pos n }) t u
    put-count v n e =
        by_types
          (λ t u. Sets m (put (count_key p t) v m) (record (state_of m t) { count = pos n }) t u)
          (simp (str_eq-key, e) (refl, λ h. refl)) (simp str_eq-key (refl, λ h. h))
          (simp str_eq-key (refl, λ h. h)) (simp (str_eq-key, e) (refl, λ h. refl))

    pub put-condition :
        (v c : String) (n : ℕ)
        → parse v ≡ some (pos n)
        → (t u : AlertType) → valid_alert_type t ≡ true
        → valid_alert_type u ≡ true
        → Sets m
            (put (count_key p t) v (put (cond_key p t) c m))
            (record (state_of m t) { count = pos n; condition = c })
            t
            u
    put-condition v c n e =
        by_types
          (λ t u.
            Sets m (put (count_key p t) v (put (cond_key p t) c m))
              (record (state_of m t) { count = pos n; condition = c }) t u)
          (simp (str_eq-key, e) (refl, λ h. refl)) (simp str_eq-key (refl, λ h. h))
          (simp str_eq-key (refl, λ h. h)) (simp (str_eq-key, e) (refl, λ h. refl))

    pub put-active :
        (v : String) (b : Bool)
        → str_eq v "1" ≡ b
        → (t u : AlertType) → valid_alert_type t ≡ true
        → valid_alert_type u ≡ true
        → Sets m (put (active_key p t) v m) (record (state_of m t) { active = b }) t u
    put-active v b e =
        by_types
          (λ t u. Sets m (put (active_key p t) v m) (record (state_of m t) { active = b }) t u)
          (simp (str_eq-key, e) (refl, λ h. h)) (simp str_eq-key (refl, λ h. h))
          (simp str_eq-key (refl, λ h. h)) (simp (str_eq-key, e) (refl, λ h. h))

    -- The three writes of set_state.lua.
    pub put-state :
        (c v f : String) (n : ℕ) (b : Bool)
        → parse v ≡ some (pos n)
        → str_eq f "1" ≡ b
        → (t u : AlertType) → valid_alert_type t ≡ true
        → valid_alert_type u ≡ true
        → Sets m
            (put (active_key p t) f (put (count_key p t) v (put (cond_key p t) c m)))
            (record { count = pos n; condition = c; active = b })
            t
            u
    put-state c v f n b e g =
        by_types
          (λ t u.
            Sets m (put (active_key p t) f (put (count_key p t) v (put (cond_key p t) c m)))
              (record { count = pos n; condition = c; active = b }) t u)
          (simp (str_eq-key, e, g) (refl, λ h. refl)) (simp str_eq-key (refl, λ h. h))
          (simp str_eq-key (refl, λ h. h)) (simp (str_eq-key, e, g) (refl, λ h. refl))
