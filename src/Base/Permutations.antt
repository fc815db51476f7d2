-- ===== src/Base/Permutations.antt =====
-- The elements of a list that pass a test, and permutations of lists.
use Prim.Native.Nat.{◌≤◌}
use mathlib.Core.Path.{◌≡◌, refl, sym, ap₂, subst, ◌∙◌}
use mathlib.Core.Bool.{Bool}
use mathlib.Core.Logic.{inl, inr}
use mathlib.Core.List.{List, [], ◌∷◌, map, Permᴰ}
use mathlib.Core.List.Permᴰ as PermD
use native.Mathlib.Omega.{arith}
use server_watch.Base.Tests.{if◌then◌else◌, Bool-cases}
use server_watch.Base.Lists.{length}

abbrev pub select : {A : Type 0} → (A → Bool) → List A → List A
select f [] = []
select f (x ∷ xs) = let rest = select f xs in if f x then x ∷ rest else rest

module _ {A : Type 0} (f : A → Bool) where
  pub select-Permᴰ : {xs ys : List A} → Permᴰ xs ys → Permᴰ (select f xs) (select f ys)
  select-Permᴰ Permᴰ.nil = Permᴰ.nil
  select-Permᴰ (Permᴰ.cons {a = a} e p) = elim (Bool-cases (f a)) [
    | inl here ↦ rw (← e, here) (Permᴰ.cons refl (select-Permᴰ p))
    | inr out ↦ rw (← e, out) (select-Permᴰ p)
  ]
  select-Permᴰ (Permᴰ.swap {a = a} {b = b} {l = l} e e') =
      let same = PermD.refl (select f l) in
      elim (Bool-cases (f a)) [
        | inl one ↦ elim (Bool-cases (f b)) [
          | inl two ↦ rw (← e, ← e', one, two) (Permᴰ.swap refl refl)
          | inr out ↦ rw (← e, ← e', one, out) (Permᴰ.cons refl same)
        ]
        | inr missing ↦ elim (Bool-cases (f b)) [
          | inl two ↦ rw (← e, ← e', missing, two) (Permᴰ.cons refl same)
          | inr out ↦ rw (← e, ← e', missing, out) same
        ]
      ]
  select-Permᴰ (Permᴰ.trans p q) = Permᴰ.trans (select-Permᴰ p) (select-Permᴰ q)

  pub select-map :
      {B : Type 0} (g : B → A) (xs : List B)
      → select f (map g xs) ≡ map g (select (λ x. f (g x)) xs)
  select-map g [] = refl
  select-map g (x ∷ xs) = ground (arith, select-map g xs)

-- A list of at most one element has no other order.
pub only_order : {A : Type 0} {xs ys : List A} → Permᴰ xs ys → length ys ≤ 1 → xs ≡ ys
only_order Permᴰ.nil short = refl
only_order (Permᴰ.cons e p) short = ap₂ (λ x xs. x ∷ xs) e (only_order p (omega (arith, short)))
only_order (Permᴰ.swap e e') short = absurd (omega (arith, short))
only_order (Permᴰ.trans p q) short =
    let same = only_order q short in
    only_order p (subst (λ l. length l ≤ 1) (sym same) short) ∙ same
