-- ===== src/Exec/Triple.antt =====
-- What calls do to the tables, as triples: an assertion on the tables before, and one after, by how
-- the call ended.
use tolo_tenant_management.Prelude.{
  ◌≡◌, refl, Bool, true, false, List, [], ◌∷◌, Option, none, some, if◌then◌else◌, inl, inr,
  Bool-cases,
}
use tolo_tenant_management.Failure.{Err, Result, ok, err}
use tolo_tenant_management.Store.{Db}
use tolo_tenant_management.Store.Checked.{Left, kept}
use tolo_tenant_management.Exec.{
  World, Exec, Fault, is_lost, raised, statement, round_trip, resume, handle, pure, fail, lift,
  query, map_error, ◌>>=◌,
}

module _ {A : Type 0} (Q : A → Db → Type 0) (E : Err → Db → Type 0) where
  abbrev pub Ends : Result A × World → Type 0
  Ends (ok a, w) = Q a w.db
  Ends (err e, w) = E e w.db

  performed :
      (r : Result A × Db) (w : World)
      → Left Q E r
      → Ends (let (a, d) = r in (a, record w { db = d }))
  performed (ok a, d) w h = h
  performed (err e, d) w h = h

pub record Triple (P : Db → Type 0) {A : Type 0} (m : Exec A) (Q : A → Db → Type 0)
    (E : Err → Db → Type 0) : Type 0 where
  pub at : (w : World) → P w.db → Ends Q E (m w)

-- An assertion that a call keeps of the tables, however it ends.
abbrev pub Keeps : (P : Db → Type 0) {A : Type 0} → Exec A → Type 0
Keeps P m = Triple P m (λ _. P) (λ _. P)

module _ {P : Db → Type 0} {A : Type 0} {Q : A → Db → Type 0} {E : Err → Db → Type 0} where
  pub Triple-pure : (a : A) → ((d : Db) → P d → Q a d) → Triple P (pure a) Q E
  unfolding pure
  Triple-pure a k = record { at = λ w h. k w.db h }

  pub Triple-fail : (e : Err) → ((d : Db) → P d → E e d) → Triple P (fail e) Q E
  unfolding fail
  Triple-fail e k = record { at = λ w h. k w.db h }

  pub Triple-lift :
      (r : Result A)
      → ((a : A) → r ≡ ok a → (d : Db) → P d → Q a d)
      → ((e : Err) → r ≡ err e → (d : Db) → P d → E e d)
      → Triple P (lift r) Q E
  unfolding lift
  Triple-lift (ok a) k l = record { at = λ w h. k a refl w.db h }
  Triple-lift (err e) k l = record { at = λ w h. l e refl w.db h }

  pub Triple-statement :
      (f : Db → Result A × Db)
      → ((d : Db) → P d → Left Q E (f d))
      → ((x : Fault) (d : Db) → P d → E (raised x) d)
      → ((x : Fault) (d : Db) → P d → E (raised x) (f d).1)
      → Triple P (statement f) Q E
  unfolding statement
  Triple-statement f k l m = record { at = λ w h. go w.faults w h }
    where
      go : (faults : List (Option Fault)) (w : World) → P w.db → Ends Q E (round_trip f faults w)
      go [] w h = performed Q E (f w.db) w (k w.db h)
      go (none ∷ rest) w h = performed Q E (f w.db) (record w { faults = rest }) (k w.db h)
      go (some e ∷ rest) w h = elim (Bool-cases (is_lost e)) [
        | inl y ↦ rw y (m e w.db h)
        | inr n ↦ rw n (l e w.db h)
      ]

  -- weaker conclusions, and a stronger assumption
  pub Triple-conseq :
      {P' : Db → Type 0} {Q' : A → Db → Type 0} {E' : Err → Db → Type 0} (m : Exec A)
      → ((d : Db) → P' d → P d)
      → ((a : A) (d : Db) → Q a d → Q' a d)
      → ((e : Err) (d : Db) → E e d → E' e d)
      → Triple P m Q E
      → Triple P' m Q' E'
  Triple-conseq {Q'} {E'} m k q x t = record { at = λ w h. go (m w) (t.at w (k w.db h)) }
    where
      go : (r : Result A × World) → Ends Q E r → Ends Q' E' r
      go (ok a, w) h = q a w.db h
      go (err e, w) h = x e w.db h

  pub Triple-if :
      (b : Bool) (m n : Exec A)
      → Triple P m Q E
      → Triple P n Q E
      → Triple P (if b then m else n) Q E
  Triple-if true m n km kn = km
  Triple-if false m n km kn = kn

module _ {A B : Type 0} {Q : A → Db → Type 0} {R E : Err → Db → Type 0} {S : B → Db → Type 0} where
  Triple-resume :
      (f : A → Exec B) (g : Err → Exec B) (r : Result A × World)
      → ((a : A) → Triple (Q a) (f a) S E)
      → ((e : Err) → Triple (R e) (g e) S E)
      → Ends Q R r
      → Ends S E (resume f g r)
  Triple-resume f g (ok a, w) kf kg h = (kf a).at w h
  Triple-resume f g (err e, w) kf kg h = (kg e).at w h

module _ {P : Db → Type 0} {A B : Type 0} {Q : A → Db → Type 0} {R E : Err → Db → Type 0}
    {S : B → Db → Type 0} where
  pub Triple-handle :
      (m : Exec A) (f : A → Exec B) (g : Err → Exec B)
      → Triple P m Q R
      → ((a : A) → Triple (Q a) (f a) S E)
      → ((e : Err) → Triple (R e) (g e) S E)
      → Triple P (handle m f g) S E
  unfolding handle
  Triple-handle m f g km kf kg = record { at = λ w h. Triple-resume f g (m w) kf kg (km.at w h) }

module _ {P : Db → Type 0} {A B : Type 0} {Q : A → Db → Type 0} {E : Err → Db → Type 0}
    {S : B → Db → Type 0} where
  pub Triple-bind :
      (m : Exec A) (f : A → Exec B)
      → Triple P m Q E
      → ((a : A) → Triple (Q a) (f a) S E)
      → Triple P (m >>= f) S E
  Triple-bind m f km kf = Triple-handle m f fail km kf (λ e. Triple-fail e (λ d h. h))

module _ {P : Db → Type 0} {A : Type 0} {Q : A → Db → Type 0} {R E : Err → Db → Type 0} where
  pub Triple-map_error :
      (f : Err → Err) (m : Exec A)
      → Triple P m Q R
      → ((e : Err) (d : Db) → R e d → E (f e) d)
      → Triple P (map_error f m) Q E
  Triple-map_error f m km k =
      Triple-handle m pure (λ e. fail (f e)) km (λ a. Triple-pure a (λ d h. h))
        (λ e. Triple-fail (f e) (k e))

module _ {P : Db → Type 0} {A : Type 0} where
  pub Keeps-pure : (a : A) → Keeps P (pure a)
  Keeps-pure a = Triple-pure a (λ d h. h)

  pub Keeps-fail : (e : Err) → Keeps P (fail {A = A} e)
  Keeps-fail e = Triple-fail e (λ d h. h)

  pub Keeps-lift : (r : Result A) → Keeps P (lift r)
  Keeps-lift r = Triple-lift r (λ a e d h. h) (λ x e d h. h)

  -- a statement that keeps it where it runs
  pub Keeps-statement :
      (f : Db → Result A × Db) → ((d : Db) → P d → P (f d).1) → Keeps P (statement f)
  Keeps-statement f k =
      Triple-statement f (λ d h. kept P (f d) (k d h)) (λ x d h. h) (λ x d h. k d h)

  pub Keeps-query : (f : Db → A) → Keeps P (query f)
  Keeps-query f = Keeps-statement (λ d. (ok (f d), d)) (λ d h. h)

  pub Keeps-if : (b : Bool) (m n : Exec A) → Keeps P m → Keeps P n → Keeps P (if b then m else n)
  Keeps-if b m n km kn = Triple-if b m n km kn

module _ {P : Db → Type 0} {A B : Type 0} where
  pub Keeps-handle :
      (m : Exec A) (f : A → Exec B) (g : Err → Exec B)
      → Keeps P m
      → ((a : A) → Keeps P (f a))
      → ((e : Err) → Keeps P (g e))
      → Keeps P (handle m f g)
  Keeps-handle m f g km kf kg = Triple-handle m f g km kf kg

pub ruleset keeps_rules = (Keeps-pure, Keeps-fail, Keeps-lift, Keeps-query, Keeps-if, Keeps-handle)

module _ (P : Db → Type 0) {A : Type 0} where
  ended : (r : Result A × World) → Ends {A = A} (λ _. P) (λ _. P) r → P r.1.db
  ended (ok a, w) h = h
  ended (err e, w) h = h

module _ {P : Db → Type 0} {A : Type 0} where
  pub kept_db : {m : Exec A} → Keeps P m → (w : World) → P w.db → P (m w).1.db
  kept_db {m} k w h = ended P (m w) (k.at w h)
