-- ===== src/Failure/Traverse.antt =====
-- What a loop that returned has done to each item.
use tolo_tenant_management.Prelude.{◌≡◌, refl, sym, List, [], ◌∷◌, length, All, arith}
use tolo_tenant_management.Failure.{Result, ok, err, ◌>>=◌, traverse}

module _ {B : Type 0} where
  both-eq_ok :
      (r : Result B) (rs : Result (List B)) {zs : List B}
      → (r >>= λ y. rs >>= λ ys. ok (y ∷ ys)) ≡ ok zs
      → (y : B) × (ys : List B) × (r ≡ ok y) × (rs ≡ ok ys) × ((y ∷ ys) ≡ zs)
  both-eq_ok (ok y) (ok ys) h = (y, ys, refl, refl, cc)
  both-eq_ok (ok y) (err e) h = cc
  both-eq_ok (err e) rs h = cc

module _ {A B : Type 0} (f : A → Result B) {P : A → Type 0} {Q : B → Type 0}
    (each : (x : A) (y : B) → P x → f x ≡ ok y → Q y) where
  -- Each value comes of one item, and there are as many.
  pub traverse-eq_ok :
      (xs : List A) {ys : List B}
      → All P xs
      → traverse f xs ≡ ok ys
      → All Q ys × (length ys ≡ length xs)
  traverse-eq_ok [] {ys} h e = let empty : [] ≡ ys = cc in rw (sym empty) (tt, refl)
  traverse-eq_ok (x ∷ xs) h e =
      let (y, ys, made, rest, same) = both-eq_ok (f x) (traverse f xs) e in
      let (all, long) = traverse-eq_ok xs h.1 rest in
      rw (sym same) ((each x y h.0 made, all), omega (arith, long))
