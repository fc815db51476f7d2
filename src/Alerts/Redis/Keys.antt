-- ===== src/Alerts/Redis/Keys.antt =====
-- Keys with a common prefix.
use Prim.Native.String.{◌++◌}
use text.Mathlib.TextLemmas.{append_cancel_left}
use server_watch.Base.{◌≡◌, String, str_eq, str_eq_iff, Bool-cases, inl, inr}

pub str_eq-prefix : (p a b : String) → str_eq (p ++ a) (p ++ b) ≡ str_eq a b
str_eq-prefix p a b = elim (Bool-cases (str_eq a b)) [
  | inl e ↦ rw e ((str_eq_iff _ _).1 (rw ((str_eq_iff a b).0 e)))
  | inr e ↦ elim (Bool-cases (str_eq (p ++ a) (p ++ b))) [
    | inl f ↦ cc ((str_eq_iff a b).1 (append_cancel_left p a b ((str_eq_iff _ _).0 f)))
    | inr f ↦ rw (e, f)
  ]
]

-- Whether two keys are equal is decided behind the prefix.
pub str_eq-key :
    (p n s n' s' : String) → str_eq (p ++ n ++ s) (p ++ n' ++ s') ≡ str_eq (n ++ s) (n' ++ s')
str_eq-key p n s n' s' = str_eq-prefix p (n ++ s) (n' ++ s')
