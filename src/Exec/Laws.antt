-- ===== src/Exec/Laws.antt =====
-- How a call that succeeded came about.
use tolo_tenant_management.Prelude.{◌≡◌, refl, arith}
use tolo_tenant_management.Failure.{Result, ok, err}
use tolo_tenant_management.Exec.{World, Exec, resume, handle, ◌>>=◌, fail}

-- The call returned a value, and left that world.
abbrev pub Returns : {A : Type 0} → Exec A → World → A → World → Type 0
Returns m w a w' = m w ≡ (ok a, w')

module _ {A B : Type 0} where
  resume-eq_ok :
      (f : A → Exec B) (r : Result A × World) {b : B} {w' : World}
      → resume f fail r ≡ (ok b, w')
      → (a : A) × (w₁ : World) × (r ≡ (ok a, w₁)) × (f a w₁ ≡ (ok b, w'))
  unfolding fail
  resume-eq_ok f (ok a, w₁) h = (a, w₁, refl, h)
  resume-eq_ok f (err e, w₁) h = ground arith

  -- A block that returned ran its first call to a value, and then the rest of it.
  pub bind-eq_ok :
      (m : Exec A) (f : A → Exec B) (w : World) {b : B} {w' : World}
      → (m >>= f) w ≡ (ok b, w')
      → (a : A) × (w₁ : World) × (m w ≡ (ok a, w₁)) × (f a w₁ ≡ (ok b, w'))
  unfolding handle
  bind-eq_ok m f w h = resume-eq_ok f (m w) h
