-- ===== src/Prelude/Lists.antt =====
-- Lists measured by native numbers, and the walks over rows that the statements make.
use Prim.Native.Nat.{ℕ, zero, suc}
use mathlib.Core.Bool.{Bool, true, false}
use mathlib.Core.Option.{Option, none, some}
use mathlib.Core.List.{List, [], ◌∷◌}
use tolo_tenant_management.Prelude.Tests.{if◌then◌else◌}

module _ {ℓ} {A : Type ℓ} where
  abbrev pub length : List A → ℕ
  length [] = 0
  length (x ∷ xs) = suc (length xs)

  abbrev pub take : ℕ → List A → List A
  take zero xs = []
  take (suc n) [] = []
  take (suc n) (x ∷ xs) = x ∷ take n xs

module _ {ℓ} {A : Type ℓ} (before : A → A → Bool) where
  abbrev pub place : A → List A → List A
  place a [] = a ∷ []
  place a (x ∷ xs) = let rest = place a xs in if before a x then a ∷ x ∷ xs else x ∷ rest

  -- ORDER BY
  abbrev pub sort : List A → List A
  sort [] = []
  sort (x ∷ xs) = place x (sort xs)

module _ {ℓ} {A : Type ℓ} (p : A → Bool) where
  -- the first row that a condition holds of
  abbrev pub find : List A → Option A
  find [] = none
  find (x ∷ xs) = if p x then some x else find xs

  -- the rows that a condition holds of, in order
  abbrev pub select : List A → List A
  select [] = []
  select (x ∷ xs) = let rest = select xs in if p x then x ∷ rest else rest

  -- the rows that a condition does not hold of
  abbrev pub reject : List A → List A
  reject [] = []
  reject (x ∷ xs) = let rest = reject xs in if p x then rest else x ∷ rest

  abbrev pub count_of : List A → ℕ
  count_of [] = 0
  count_of (x ∷ xs) = let rest = count_of xs in if p x then suc rest else rest

  abbrev pub any : List A → Bool
  any [] = false
  any (x ∷ xs) = if p x then true else any xs

  -- every row that a condition holds of is rewritten
  abbrev pub rewrite : (A → A) → List A → List A
  rewrite f [] = []
  rewrite f (x ∷ xs) = (if p x then f x else x) ∷ rewrite f xs

module _ {ℓ κ} {A : Type ℓ} (P : A → Type κ) where
  abbrev pub All : List A → Type κ
  All [] = Unit
  All (x ∷ xs) = P x × All xs
