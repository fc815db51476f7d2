-- ===== src/System/Hysteresis/Verdict.antt =====
-- When an alert is active, told from the measurements alone. A history has the newest one first;
-- `true` is a measurement above the threshold.
use server_watch.Base.{
  ℕ, suc, ◌≡◌, ◌≤◌, refl, Bool, true, false, ◌&&◌, List, [], ◌∷◌, length, leb, if◌then◌else◌, arith,
}
use server_watch.Base.Int.{pos}
use server_watch.Model.{AlertCondition, AlertState, condition_high, condition_normal}
use server_watch.Alerts.Store.{bump}

abbrev pub same : Bool → Bool → Bool
same true b = b
same false true = false
same false false = true

-- The last three equal measurements decide; before there were any, the alert is as at the start.
abbrev pub verdict : Bool → List Bool → Bool
verdict before (x ∷ y ∷ z ∷ rest) =
    let earlier = verdict before (y ∷ z ∷ rest) in if same x y && same y z then x else earlier
verdict before _ = before

-- How many of the newest measurements are equal.
abbrev pub run_length : List Bool → ℕ
run_length [] = 0
run_length (x ∷ []) = 1
run_length (x ∷ y ∷ rest) = if same x y then suc (run_length (y ∷ rest)) else 1

abbrev pub condition_name : Bool → AlertCondition
condition_name above = if above then condition_high else condition_normal

-- The condition that a counter stands at.
abbrev pub latest : List Bool → AlertCondition
latest [] = ""
latest (x ∷ rest) = condition_name x

pub run_length_pos : (x : Bool) (h : List Bool) → 1 ≤ run_length (x ∷ h)
run_length_pos x [] = omega arith
run_length_pos x (y ∷ h) = ground arith

pub run_length-le-length : (h : List Bool) → run_length h ≤ length h
run_length-le-length [] = omega arith
run_length-le-length (x ∷ []) = omega arith
run_length-le-length (x ∷ y ∷ h) = ground (arith, run_length-le-length (y ∷ h))

-- A run of three or more decides, and nothing else changes the verdict.
pub verdict-cons :
    (before x : Bool) (h : List Bool)
    → verdict before (x ∷ h) ≡ (if leb 3 (run_length (x ∷ h)) then x else verdict before h)
verdict-cons before x [] = refl
verdict-cons before x (y ∷ []) = ground arith
verdict-cons before x (y ∷ z ∷ h) = ground (arith, run_length_pos z h)

-- A counter at its run takes the next measurement.
pub bump-run_length :
    (x : Bool) (h : List Bool) (s : AlertState)
    → s.count ≡ pos (run_length h)
    → s.condition ≡ latest h
    → ((bump (condition_name x) s).count ≡ pos (run_length (x ∷ h)))
      × ((bump (condition_name x) s).condition ≡ condition_name x)
bump-run_length true [] s c l = rw l (refl, refl)
bump-run_length false [] s c l = rw l (refl, refl)
bump-run_length true (true ∷ h) s c l = rw (l, c) (refl, refl)
bump-run_length true (false ∷ h) s c l = rw l (refl, refl)
bump-run_length false (true ∷ h) s c l = rw l (refl, refl)
bump-run_length false (false ∷ h) s c l = rw (l, c) (refl, refl)
