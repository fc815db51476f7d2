-- ===== src/Base/Actions.antt =====
-- A call that may fail and changes a state: the state comes back after an error too, since what
-- was written stays written.
use Prim.Native.String.{String}
use mathlib.Core.Path.{◌≡◌, refl}
use mathlib.Core.Logic.{◌⊎◌, inl, inr}
use native.Mathlib.Omega.{arith}
use mathlib.Core.Bool.{Bool, true, false}
use server_watch.Base.Errors.{Error, wrap}

pub data Result {ℓ} (A : Type ℓ) : Type ℓ where
  ok : A → Result A
  err : Error → Result A

pub Result-cases {ℓ} :
    {A : Type ℓ} (r : Result A) → ((a : A) × (r ≡ ok a)) ⊎ ((e : Error) × (r ≡ err e))
Result-cases (ok a) = inl (a, refl)
Result-cases (err e) = inr (e, refl)

abbrev pub Action : Type 0 → Type 0 → Type 0
Action S A = S → Result A × S

module _ {S A : Type 0} where
  abbrev pub pure : A → Action S A
  pure a s = (ok a, s)

  abbrev pub raise : Error → Action S A
  raise e s = (err e, s)

  abbrev pub gets : (S → A) → Action S A
  gets f s = (ok (f s), s)

  -- `if err != nil { return …, fmt.Errorf("…: %w", err) }`
  abbrev pub wrapping : String → Action S A → Action S A
  wrapping m act s =
      let (r, s') = act s in elim r [ ok a ↦ (ok a, s') | err e ↦ (err (wrap m e), s') ]

  pub wrapping_ok :
      (m : String) (act : Action S A) (s : S) {a : A} {s' : S}
      → act s ≡ (ok a, s')
      → wrapping m act s ≡ (ok a, s')
  wrapping_ok m act s h = ground arith

  -- An error that is only logged.
  abbrev pub logged : Action S A → Action S (Unit {0})
  logged act s = (ok tt, (act s).1)

module _ {S : Type 0} where
  abbrev pub modify : (S → S) → Action S (Unit {0})
  modify f s = (ok tt, f s)

  abbrev pub when : Bool → Action S (Unit {0}) → Action S (Unit {0})
  when true act s = act s
  when false act s = (ok tt, s)

infixl 5 ◌>>=◌ ◌>>◌
abbrev pub ◌>>=◌ : {S A B : Type 0} → Action S A → (A → Action S B) → Action S B
◌>>=◌ m f s = let (r, s') = m s in elim r [ ok a ↦ f a s' | err e ↦ (err e, s') ]

abbrev pub ◌>>◌ : {S A B : Type 0} → Action S A → Action S B → Action S B
m >> k = m >>= λ _. k

-- Two guarded actions, of which at most one runs.
module _ {S : Type 0} (m n : String) (act act' : Action S (Unit {0})) (b c : Bool) {s s' : S} where
  pub first_guard :
      b ≡ true
      → c ≡ false
      → act s ≡ (ok tt, s')
      → (when b (wrapping m act) >> when c (wrapping n act')) s ≡ (ok tt, s')
  first_guard h k e = ground arith

  pub second_guard :
      b ≡ false
      → c ≡ true
      → act' s ≡ (ok tt, s')
      → (when b (wrapping m act) >> when c (wrapping n act')) s ≡ (ok tt, s')
  second_guard h k e = ground arith
