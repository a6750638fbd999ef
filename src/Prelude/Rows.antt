-- ===== src/Prelude/Rows.antt =====
-- What the walks over rows keep: counts, existence, keys that differ.
use Prim.Native.Nat.{◌+◌, ◌≤◌, ◌<◌}
use mathlib.Core.Path.{◌≡◌, refl, sym, ap, ◌∙◌, subst, fun_ext}
use mathlib.Core.Logic.{◌⊎◌, inl, inr}
use mathlib.Core.Option.{Option, none, some, some_inj}
use mathlib.Core.Bool.{Bool, true, false, ◌&&◌}
use mathlib.Core.List.{List, [], ◌∷◌}
use native.Mathlib.Omega.{arith}
use text.Mathlib.Text.{◌==◌ as str_eq}
use text.Mathlib.TextEquality.{eq_iff}
use Prim.Native.String.{String}
use tolo_tenant_management.Prelude.Tests.{Bool-cases}
use tolo_tenant_management.Prelude.Lists.{reject, count_of, any, rewrite, find, All}

-- two texts that equal a third
pub str_eq_trans : (a b c : String) → str_eq a c ≡ true → str_eq b c ≡ true → str_eq a b ≡ true
str_eq_trans a b c p q = ground (arith, eq_iff a c, eq_iff b c, eq_iff a b)

module _ {ℓ} {A : Type ℓ} (same : A → A → Bool) where
  -- No row has the key of a later one.
  abbrev pub Distinct : List A → Type 0
  Distinct [] = Unit
  Distinct (x ∷ xs) = (any (same x) xs ≡ false) × Distinct xs

module _ {ℓ} {A : Type ℓ} (p q : A → Bool) where
  count-le-reject :
      (xs : List A) → count_of q xs ≤ count_of q (reject p xs) + count_of (λ x. p x && q x) xs
  count-le-reject [] = omega arith
  count-le-reject (x ∷ xs) = ground (arith, count-le-reject xs)

  count-le-rewrite :
      (f : A → A) (xs : List A)
      → count_of q xs ≤ count_of q (rewrite p f xs) + count_of (λ x. p x && q x) xs
  count-le-rewrite f [] = omega arith
  count-le-rewrite f (x ∷ xs) = ground (arith, count-le-rewrite f xs)

  -- no more rows than are rewritten into ones that are counted can be lost
  pub count-ge-rewrite :
      (f : A → A)
      → ((x : A) → p x ≡ true → q (f x) ≡ true)
      → (xs : List A) → count_of q xs ≤ count_of q (rewrite p f xs)
  count-ge-rewrite f k [] = omega arith
  count-ge-rewrite f k (x ∷ xs) = ground (arith, k x, count-ge-rewrite f k xs)

  count-and : (xs : List A) → count_of (λ x. p x && q x) xs ≤ count_of p xs
  count-and [] = omega arith
  count-and (x ∷ xs) = ground (arith, count-and xs)

  -- of the rows that are counted, none is picked, or more are counted than are picked
  abbrev pub Spares : List A → Type 0
  Spares xs = (count_of (λ x. p x && q x) xs ≡ 0) ⊎ ((1 < count_of q xs) × (count_of p xs ≤ 1))

  pub Spares-reject : (xs : List A) → Spares xs → 0 < count_of q xs → 0 < count_of q (reject p xs)
  Spares-reject xs (inl e) h = omega (arith, e, h, count-le-reject xs)
  Spares-reject xs (inr e) h = omega (arith, e.0, e.1, count-and xs, count-le-reject xs)

  pub Spares-rewrite :
      (f : A → A) (xs : List A) → Spares xs → 0 < count_of q xs → 0 < count_of q (rewrite p f xs)
  Spares-rewrite f xs (inl e) h = omega (arith, e, h, count-le-rewrite f xs)
  Spares-rewrite f xs (inr e) h = omega (arith, e.0, e.1, count-and xs, count-le-rewrite f xs)

  pub any-reject : (xs : List A) → any q xs ≡ false → any q (reject p xs) ≡ false
  any-reject [] h = refl
  any-reject (x ∷ xs) h = ground (arith, any-reject xs)

  -- A rewriting that turns no other row into one that is counted keeps a count from growing, and
  -- one that keeps the counted rows keeps it.
  pub any-rewrite :
      (f : A → A) → ((x : A) → q (f x) ≡ q x) → (xs : List A) → any q (rewrite p f xs) ≡ any q xs
  any-rewrite f k [] = refl
  any-rewrite f k (x ∷ xs) = ground (arith, k x, any-rewrite f k xs)

  pub count-rewrite :
      (f : A → A)
      → ((x : A) → p x ≡ true → q (f x) ≡ q x)
      → (xs : List A) → count_of q (rewrite p f xs) ≡ count_of q xs
  count-rewrite f k [] = refl
  count-rewrite f k (x ∷ xs) = ground (arith, k x, count-rewrite f k xs)

  pub count-reject :
      ((x : A) → q x ≡ true → p x ≡ false)
      → (xs : List A) → count_of q (reject p xs) ≡ count_of q xs
  count-reject k [] = refl
  count-reject k (x ∷ xs) = ground (arith, k x, count-reject k xs)

  pub any-of_reject :
      ((x : A) → q x ≡ true → p x ≡ false)
      → (xs : List A) → any q xs ≡ true
      → any q (reject p xs) ≡ true
  any-of_reject k [] h = h
  any-of_reject k (x ∷ xs) h = ground (arith, k x, any-of_reject k xs)

module _ {ℓ} {A : Type ℓ} (p : A → Bool) where
  pub count-none : (xs : List A) → any p xs ≡ false → count_of p xs ≡ 0
  count-none [] h = refl
  count-none (x ∷ xs) h = ground (arith, count-none xs)

  pub reject-none : (xs : List A) → any p xs ≡ false → reject p xs ≡ xs
  reject-none [] h = refl
  reject-none (x ∷ xs) h = ground (arith, reject-none xs)

  pub any-of_find : (xs : List A) → find p xs ≡ none → any p xs ≡ false
  any-of_find [] h = refl
  any-of_find (x ∷ xs) h = elim (Bool-cases (p x)) [
    | inl e ↦ ground arith
    | inr e ↦ rw e (any-of_find xs (rw e at h))
  ]

  pub count-and_none :
      (q : A → Bool) (xs : List A) → any p xs ≡ false → count_of (λ x. p x && q x) xs ≡ 0
  count-and_none q [] h = refl
  count-and_none q (x ∷ xs) h = ground (arith, count-and_none q xs)

module _ {ℓ} {A : Type ℓ} (same : A → A → Bool) where
  any-same :
      (p : A → Bool)
      → ((a b : A) → p a ≡ true → p b ≡ true → same a b ≡ true)
      → (x : A) → p x ≡ true
      → (xs : List A) → any (same x) xs ≡ false
      → any p xs ≡ false
  any-same p k x px [] h = refl
  any-same p k x px (y ∷ ys) h = ground (arith, k x y px, any-same p k x px ys)

  -- A condition that picks rows of one key picks one at most.
  pub Distinct-count :
      (p : A → Bool)
      → ((a b : A) → p a ≡ true → p b ≡ true → same a b ≡ true)
      → (xs : List A) → Distinct same xs
      → count_of p xs ≤ 1
  Distinct-count p k [] h = omega arith
  Distinct-count p k (x ∷ xs) h = elim (Bool-cases (p x)) [
    | inl e ↦ ground (arith, count-none p xs (any-same p k x e xs h.0))
    | inr e ↦ ground (arith, Distinct-count p k xs h.1)
  ]

  -- The first row of a key is the only one, so that what fails of it fails of every row of the key.
  pub Distinct-find :
      (p q : A → Bool)
      → ((a b : A) → p a ≡ true → p b ≡ true → same a b ≡ true)
      → (xs : List A) → Distinct same xs
      → {m : A} → find p xs ≡ some m
      → q m ≡ false
      → count_of (λ x. p x && q x) xs ≡ 0
  Distinct-find p q k [] h e n = refl
  Distinct-find p q k (x ∷ xs) h {m} e n = elim (Bool-cases (p x)) [
    | inl px ↦
        let head : q x ≡ false = elim (Bool-cases (q x)) [ inl qx ↦ ground arith | inr qx ↦ qx ] in
        rw (px, head) (count-and_none p q xs (any-same p k x px xs h.0))
    | inr px ↦ rw px (Distinct-find p q k xs h.1 (rw px at e) n)
  ]

  pub Distinct-reject :
      (p : A → Bool) (xs : List A) → Distinct same xs → Distinct same (reject p xs)
  Distinct-reject p [] h = tt
  Distinct-reject p (x ∷ xs) h =
      ground (arith, Distinct-reject p xs h.1, any-reject p (same x) xs h.0)

  -- A rewriting that keeps every key keeps them different.
  pub Distinct-rewrite :
      (p : A → Bool) (f : A → A)
      → ((x y : A) → same x (f y) ≡ same x y)
      → ((x y : A) → same (f x) y ≡ same x y)
      → (xs : List A) → Distinct same xs
      → Distinct same (rewrite p f xs)
  Distinct-rewrite p f k l [] h = tt
  Distinct-rewrite p f k l (x ∷ xs) h = elim (Bool-cases (p x)) [
    | inl e ↦ rw e (
      rw (fun_ext (l x)) (any-rewrite p (same x) f (k x) xs ∙ h.0),
      Distinct-rewrite p f k l xs h.1,
    )
    | inr e ↦ rw e (any-rewrite p (same x) f (k x) xs ∙ h.0, Distinct-rewrite p f k l xs h.1)
  ]

-- a row that is found is counted once it is rewritten
pub any-rewrite_found {ℓ} :
    {A : Type ℓ} (p q : A → Bool) (f : A → A)
    → ((x : A) → p x ≡ true → q (f x) ≡ true)
    → (xs : List A) {y : A} → find p xs ≡ some y
    → any q (rewrite p f xs) ≡ true
any-rewrite_found p q f k [] h = ground arith
any-rewrite_found p q f k (x ∷ xs) h = elim (Bool-cases (p x)) [
  | inl e ↦ rw e (rw (k x e) refl)
  | inr e ↦ rw e (elim (Bool-cases (q x)) [
    | inl y ↦ rw y refl
    | inr n ↦ rw n (any-rewrite_found p q f k xs (rw e at h))
  ])
]

-- a row that is found is counted
pub any-found {ℓ} :
    {A : Type ℓ} (p q : A → Bool) (xs : List A) {y : A}
    → find p xs ≡ some y
    → (p y ≡ true → q y ≡ true)
    → any q xs ≡ true
any-found p q [] h k = ground arith
any-found p q (x ∷ xs) {y} h k = elim (Bool-cases (p x)) [
  | inl e ↦
      let same : x ≡ y = some_inj.0 (rw e at h) in
      rw (subst (λ z. q z ≡ true) (sym same) (k (subst (λ z. p z ≡ true) same e))) refl
  | inr e ↦ elim (Bool-cases (q x)) [
    | inl c ↦ rw c refl
    | inr c ↦ rw c (any-found p q xs (rw e at h) k)
  ]
]

-- the rows that stay are those that were not picked
pub All-rejected {ℓ} :
    {A : Type ℓ} (p : A → Bool) (xs : List A) → All (λ x. p x ≡ false) (reject p xs)
All-rejected p [] = tt
All-rejected p (x ∷ xs) = elim (Bool-cases (p x)) [
  | inl e ↦ rw e (All-rejected p xs)
  | inr e ↦ rw e (e, All-rejected p xs)
]

module _ {ℓ κ} {A : Type ℓ} {P Q : A → Type κ} where
  pub All-map : ((x : A) → P x → Q x) → (xs : List A) → All P xs → All Q xs
  All-map k [] h = tt
  All-map k (x ∷ xs) h = (k x h.0, All-map k xs h.1)

  -- rows that stay, each of which satisfied a condition
  pub All-reject :
      (p : A → Bool)
      → ((x : A) → p x ≡ false → P x → Q x)
      → (xs : List A) → All P xs
      → All Q (reject p xs)
  All-reject p k [] h = tt
  All-reject p k (x ∷ xs) h = elim (Bool-cases (p x)) [
    | inl e ↦ rw e (All-reject p k xs h.1)
    | inr e ↦ rw e (k x e h.0, All-reject p k xs h.1)
  ]

  pub All-rewrite :
      (p : A → Bool) (f : A → A)
      → ((x : A) → p x ≡ true → P x → Q (f x))
      → ((x : A) → p x ≡ false → P x → Q x)
      → (xs : List A) → All P xs
      → All Q (rewrite p f xs)
  All-rewrite p f k l [] h = tt
  All-rewrite p f k l (x ∷ xs) h = elim (Bool-cases (p x)) [
    | inl e ↦ rw e (k x e h.0, All-rewrite p f k l xs h.1)
    | inr e ↦ rw e (l x e h.0, All-rewrite p f k l xs h.1)
  ]

module _ {ℓ κ} {A : Type ℓ} (P Q : A → Type κ) where
  -- two facts of each row as one
  pub All-both : (xs : List A) → All P xs → All Q xs → All (λ x. P x × Q x) xs
  All-both [] h k = tt
  All-both (x ∷ xs) h k = ((h.0, k.0), All-both xs h.1 k.1)

module _ {ℓ} {A : Type ℓ} (p : A → Bool) where
  pub All-unless : (xs : List A) → any p xs ≡ false → All (λ x. p x ≡ false) xs
  All-unless [] h = tt
  All-unless (x ∷ xs) h = elim (Bool-cases (p x)) [
    | inl e ↦ ground arith
    | inr e ↦ (e, All-unless xs (rw e at h))
  ]

module _ {ℓ} {A : Type ℓ} (same : A → A → Bool) (p : A → Bool) where
  any-and : (x : A) (xs : List A) → any (same x) xs ≡ false → any (λ u. p u && same x u) xs ≡ false
  any-and x [] h = refl
  any-and x (y ∷ ys) h = ground (arith, any-and x ys)

  -- Where keys differ, a row that a condition does not hold of shares its key with none that it
  -- holds of.
  pub Distinct-unshared :
      ((a b : A) → same a b ≡ same b a)
      → (xs : List A) → Distinct same xs
      → All (λ x. p x ≡ false → any (λ u. p u && same x u) xs ≡ false) xs
  Distinct-unshared comm [] h = tt
  Distinct-unshared comm (x ∷ xs) h = (
    λ e. ground (arith, e, any-and x xs h.0),
    All-map {Q = λ y. p y ≡ false → any (λ u. p u && same y u) (x ∷ xs) ≡ false}
        (λ y k e. ground (arith, k.0 e, k.1, comm x y)) xs
        (All-both (λ y. p y ≡ false → any (λ u. p u && same y u) xs ≡ false) (λ y. same x y ≡ false)
          xs (Distinct-unshared comm xs h.1) (All-unless (same x) xs h.0)),
  )

module _ {ℓ κ} {A : Type ℓ} (P : A → Type κ) (p : A → Bool) where
  -- a row that a search found
  pub All-find : (xs : List A) → All P xs → {x : A} → find p xs ≡ some x → P x × (p x ≡ true)
  All-find [] h e = ground arith
  All-find (y ∷ ys) h {x} e = elim (Bool-cases (p y)) [
    | inl py ↦
        let same : y ≡ x = ap {A = Option A} (λ o. elim o [ none ↦ y | some v ↦ v ]) (rw py at e) in
        (rw (sym same) h.0, rw (sym same) py)
    | inr py ↦ All-find ys h.1 (rw py at e)
  ]

module _ {ℓ} {A : Type ℓ} (p : A → Bool) where
  pub count-of_any : (xs : List A) → any p xs ≡ true → 0 < count_of p xs
  count-of_any [] h = ground arith
  count-of_any (x ∷ xs) h = ground (arith, count-of_any xs)
