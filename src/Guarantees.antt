-- ===== src/Guarantees.antt =====
-- What a caller may conclude from a use case that returned a value.
pub mod Lookup
pub mod Permission
pub mod Administration
pub mod Admission
pub mod Joined
pub mod Claim
pub mod Offer
pub mod Acceptance
pub mod Boundary
pub mod Isolation
pub mod Listing
pub mod Registration
pub mod Removal
use tolo_tenant_management.Prelude.{◌≡◌, refl, arith, subst, Bool, true, false, if◌then◌else◌}
use tolo_tenant_management.Failure.{Err, Result, ok, err}
use tolo_tenant_management.Context.{Context}
use tolo_tenant_management.Store.{Db}
use tolo_tenant_management.Exec.{World, Exec, ◌>>=◌, pure, fail, lift, map_error, handle}
use tolo_tenant_management.Exec.Triple.{
  Triple, Ends, Keeps, Triple-bind, Triple-lift, Triple-fail, Triple-if, Triple-conseq, Triple-pure,
  Triple-map_error,
}
use tolo_tenant_management.Transaction.{run_in_transaction}
use tolo_tenant_management.Transaction.Atomic.{inside}
use tolo_tenant_management.Transaction.Triple.{Triple-run_in}

-- an error says nothing here
abbrev pub Any : Err → Db → Type 0
Any _ _ = Unit

-- From tables d, the call returns no value unless K.
abbrev pub Proves : {A : Type 0} → Db → Exec A → Type 0 → Type 0
Proves d m K = Triple (λ x. x ≡ d) m (λ _ _. K) Any

-- From tables d, the call reads, and its value satisfies R.
abbrev pub Reads : {A : Type 0} → Db → Exec A → (A → Type 0) → Type 0
Reads d m R = Triple (λ x. x ≡ d) m (λ a x. (x ≡ d) × R a) Any

pub proved :
    {A : Type 0} {K : Type 0} (m : Exec A) {w : World} {a : A} {w' : World}
    → Proves w.db m K
    → m w ≡ (ok a, w')
    → K
proved {K} m {w} t h = subst (Ends (λ _ _. K) Any) h (t.at w refl)

module _ {A : Type 0} {K : Type 0} where
  known : (r : Result A × World) → K → Ends (λ _ _. K) Any r
  known (ok a, w) k = k
  known (err e, w) k = tt

  -- nothing is left to prove
  pub Proves-known : {d : Db} (m : Exec A) → K → Proves d m K
  Proves-known m k = record { at = λ w h. known (m w) k }

module _ {d : Db} {A B : Type 0} {K : Type 0} where
  -- the first call already proves it
  pub Proves-first : (m : Exec A) (f : A → Exec B) → Proves d m K → Proves d (m >>= f) K
  Proves-first m f t =
      Triple-bind {Q = λ _ _. K} m f t (λ a. record { at = λ w k. known (f a w) k })

  pub Proves-next :
      {R : A → Type 0} (m : Exec A) (f : A → Exec B)
      → Reads d m R
      → ((a : A) → R a → Proves d (f a) K)
      → Proves d (m >>= f) K
  Proves-next m f t k = Triple-bind m f t (λ a. record { at = λ w h. (k a h.1).at w h.0 })

module _ {d : Db} {A B : Type 0} {S : B → Type 0} where
  pub Reads-bind :
      {R : A → Type 0} (m : Exec A) (f : A → Exec B)
      → Reads d m R
      → ((a : A) → R a → Reads d (f a) S)
      → Reads d (m >>= f) S
  Reads-bind m f t k = Triple-bind m f t (λ a. record { at = λ w h. (k a h.1).at w h.0 })

module _ {d : Db} {A : Type 0} where
  pub Reads-lift : (r : Result A) → Reads d (lift r) (λ a. r ≡ ok a)
  Reads-lift r = Triple-lift r (λ a e x h. (h, e)) (λ x e y h. tt)

  pub Reads-pure : {R : A → Type 0} (a : A) → R a → Reads d (pure a) R
  Reads-pure a h = Triple-pure a (λ x same. (same, h))

  pub Proves-fail : {K : Type 0} (e : Err) → Proves d (fail {A = A} e) K
  Proves-fail e = Triple-fail e (λ x h. tt)

  pub Reads-keeps : (m : Exec A) → Keeps (λ x. x ≡ d) m → Reads d m (λ _. Unit {0})
  Reads-keeps m k = Triple-conseq m (λ x h. h) (λ a x h. (h, tt)) (λ e x h. tt) k

  pub Proves-map : {K L : Type 0} (m : Exec A) → (K → L) → Proves d m K → Proves d m L
  Proves-map m f t = Triple-conseq m (λ x h. h) (λ a x h. f h) (λ e x h. h) t

  -- a fact that is known already goes with what is read
  pub Reads-with :
      {R : A → Type 0} {K : Type 0} (m : Exec A) → Reads d m R → K → Reads d m (λ a. R a × K)
  Reads-with m t k = Triple-conseq m (λ x h. h) (λ a x h. (h.0, (h.1, k))) (λ e x h. h) t

  -- the branch that does not fail
  pub Proves-unless :
      {K : Type 0} (b : Bool) (e : Err) (m : Exec A)
      → (b ≡ false → Proves d m K)
      → Proves d (if b then fail e else m) K
  Proves-unless true e m k = Triple-fail e (λ x h. tt)
  Proves-unless false e m k = k refl

  pub Reads-unless :
      {R : A → Type 0} (b : Bool) (e : Err) (m : Exec A)
      → (b ≡ false → Reads d m R)
      → Reads d (if b then fail e else m) R
  Reads-unless true e m k = Triple-fail e (λ x h. tt)
  Reads-unless false e m k = k refl

  pub Proves-run :
      {K : Type 0} (ctx : Context) (fn : Context → Exec A)
      → Proves d (fn ctx) K
      → Proves d (fn (inside ctx)) K
      → Proves d (run_in_transaction ctx fn) K
  Proves-run ctx fn t u = Triple-run_in ctx fn (λ e x h. tt) (λ e x h. tt) (λ e a x h. tt) t u

-- From tables d, the call returns no value unless Q holds of it and of the tables it leaves.
abbrev pub Leads : {A : Type 0} → Db → Exec A → (A → Db → Type 0) → Type 0
Leads d m Q = Triple (λ x. x ≡ d) m Q Any

pub led :
    {A : Type 0} {Q : A → Db → Type 0} (m : Exec A) {w : World} {a : A} {w' : World}
    → Leads w.db m Q
    → m w ≡ (ok a, w')
    → Q a w'.db
led {Q} m {w} t h = subst (Ends Q Any) h (t.at w refl)

module _ {d : Db} {A B : Type 0} {Q : B → Db → Type 0} where
  pub Leads-next :
      {R : A → Type 0} (m : Exec A) (f : A → Exec B)
      → Reads d m R
      → ((a : A) → R a → Leads d (f a) Q)
      → Leads d (m >>= f) Q
  Leads-next m f t k = Triple-bind m f t (λ a. record { at = λ w h. (k a h.1).at w h.0 })

module _ {d : Db} {A : Type 0} {Q : A → Db → Type 0} where
  pub Leads-unless :
      (b : Bool) (e : Err) (m : Exec A)
      → (b ≡ false → Leads d m Q)
      → Leads d (if b then fail e else m) Q
  Leads-unless true e m k = Triple-fail e (λ x h. tt)
  Leads-unless false e m k = k refl

  pub Leads-run :
      (ctx : Context) (fn : Context → Exec A)
      → Leads d (fn ctx) Q
      → Leads d (fn (inside ctx)) Q
      → Leads d (run_in_transaction ctx fn) Q
  Leads-run ctx fn t u = Triple-run_in ctx fn (λ e x h. tt) (λ e x h. tt) (λ e a x h. tt) t u
