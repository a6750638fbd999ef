-- ===== src/Prelude/Sorted.antt =====
-- What filtering, ordering and cutting off leave of rows.
use Prim.Native.Nat.{ℕ, zero, suc, ◌≤◌}
use mathlib.Core.Path.{◌≡◌}
use mathlib.Core.Logic.{inl, inr}
use mathlib.Core.Bool.{Bool, true}
use mathlib.Core.List.{List, [], ◌∷◌}
use native.Mathlib.Omega.{arith}
use tolo_tenant_management.Prelude.Tests.{Bool-cases}
use tolo_tenant_management.Prelude.Lists.{length, take, place, sort, select, All}

module _ {ℓ} {A : Type ℓ} (p : A → Bool) where
  -- what is selected satisfies the condition
  pub All-select : (xs : List A) → All (λ x. p x ≡ true) (select p xs)
  All-select [] = tt
  All-select (x ∷ xs) = elim (Bool-cases (p x)) [
    | inl e ↦ rw e (e, All-select xs)
    | inr e ↦ rw e (All-select xs)
  ]

module _ {ℓ κ} {A : Type ℓ} (P : A → Type κ) (before : A → A → Bool) where
  All-place : (a : A) (xs : List A) → P a → All P xs → All P (place before a xs)
  All-place a [] h k = (h, tt)
  All-place a (x ∷ xs) h k = elim (Bool-cases (before a x)) [
    | inl e ↦ rw e (h, k)
    | inr e ↦ rw e (k.0, All-place a xs h k.1)
  ]

  pub All-sort : (xs : List A) → All P xs → All P (sort before xs)
  All-sort [] h = tt
  All-sort (x ∷ xs) h = All-place x (sort before xs) h.0 (All-sort xs h.1)

module _ {ℓ κ} {A : Type ℓ} (P : A → Type κ) where
  pub All-take : (n : ℕ) (xs : List A) → All P xs → All P (take n xs)
  All-take zero xs h = tt
  All-take (suc n) [] h = tt
  All-take (suc n) (x ∷ xs) h = (h.0, All-take n xs h.1)

module _ {ℓ} {A : Type ℓ} where
  pub length-take : (n : ℕ) (xs : List A) → length (take n xs) ≤ n
  length-take zero xs = omega arith
  length-take (suc n) [] = omega arith
  length-take (suc n) (x ∷ xs) = omega (arith, length-take n xs)
