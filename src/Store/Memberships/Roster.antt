-- ===== src/Store/Memberships/Roster.antt =====
-- The memberships as a map from a tenant and a user to a role: what the writes of
-- internal/relation/infra/db/membership.go do to it.
use tolo_tenant_management.Prelude.{
  ℕ, ◌≡◌, refl, sym, String, Bool, true, false, not, ◌<◌, ◌↔◌, ◌⊎◌, count_of, count-none, ◌&&◌,
  Option, none, some, inl, inr, List, [], ◌∷◌, arith, str_eq, eq_iff, find, any, rewrite, reject,
  and-eq_true, Bool-cases, if◌then◌else◌,
}
use tolo_tenant_management.Failure.{Result}
use tolo_tenant_management.Store.{MembershipRow, Db}
use tolo_tenant_management.Store.Checked.{Left, checked-Left}
use tolo_tenant_management.Store.Memberships.{
  storable_role, insert_checks, set_role_checks, is_member, with_role, role_of, insert, set_role,
  delete,
}

abbrev pub Roster : Type 0
Roster = String → String → Option String

abbrev pub roster : Db → Roster
roster d tenant_id user_id = role_of tenant_id user_id d

-- the map, changed at one key
abbrev pub put : String → String → Option String → Roster → Roster
put tenant_id user_id role f x y = if str_eq tenant_id x && str_eq user_id y then role else f x y

abbrev role_in : String → String → List MembershipRow → Option String
role_in x y ms = elim (find (is_member x y) ms) [ none ↦ none | some m ↦ some m.tenant_role ]

module _ (t u x y : String) where
  role_in-reject :
      (ms : List MembershipRow)
      → role_in x y (reject (is_member t u) ms) ≡ put t u none (λ a b. role_in a b ms) x y
  role_in-reject [] = ground arith
  role_in-reject (m ∷ ms) = ground (
    arith,
    eq_iff m.tenant_id t,
    eq_iff m.tenant_id x,
    eq_iff t x,
    eq_iff m.user_id u,
    eq_iff m.user_id y,
    eq_iff u y,
    role_in-reject ms,
  )

  apart :
      (m : MembershipRow)
      → (str_eq t x && str_eq u y) ≡ false
      → is_member t u m ≡ true
      → is_member x y m ≡ false
  apart m h e = ground (
    arith,
    eq_iff m.tenant_id t,
    eq_iff m.tenant_id x,
    eq_iff t x,
    eq_iff m.user_id u,
    eq_iff m.user_id y,
    eq_iff u y,
  )

  role_in-rewrite_other :
      (role : String)
      → (str_eq t x && str_eq u y) ≡ false
      → (ms : List MembershipRow)
      → role_in x y (rewrite (is_member t u) (with_role role) ms) ≡ role_in x y ms
  role_in-rewrite_other role h [] = refl
  role_in-rewrite_other role h (m ∷ ms) = elim (Bool-cases (is_member t u m)) [
    | inl e ↦ rw e (rw (role_in, apart m h e) (role_in-rewrite_other role h ms))
    | inr e ↦ elim (Bool-cases (is_member x y m)) [
      | inl k ↦ rw e (rw (role_in, k) refl)
      | inr k ↦ rw e (rw (role_in, k) (role_in-rewrite_other role h ms))
    ]
  ]

module _ (t u : String) where
  count_of-role :
      (ms : List MembershipRow) → (role_in t u ms ≡ none) ↔ (count_of (is_member t u) ms ≡ 0)
  count_of-role [] = ground arith
  count_of-role (m ∷ ms) = elim (Bool-cases (is_member t u m)) [
    | inl e ↦ rw (role_in, e) (ground arith)
    | inr e ↦ rw (role_in, e) (count_of-role ms)
  ]

  count_of-any :
      (ms : List MembershipRow) → any (is_member t u) ms ≡ true → 0 < count_of (is_member t u) ms
  count_of-any [] h = ground arith
  count_of-any (m ∷ ms) h = ground (arith, count_of-any ms)

  none_held : (ms : List MembershipRow) → any (is_member t u) ms ≡ false → role_in t u ms ≡ none
  none_held ms h = (count_of-role ms).1 (count-none (is_member t u) ms h)

  role_in-rewrite_self :
      (role : String) (ms : List MembershipRow)
      → any (is_member t u) ms ≡ true
      → role_in t u (rewrite (is_member t u) (with_role role) ms) ≡ some role
  role_in-rewrite_self role [] h = cc
  role_in-rewrite_self role (m ∷ ms) h = elim (Bool-cases (is_member t u m)) [
    | inl e ↦ rw e (rw (role_in, e) refl)
    | inr e ↦ rw e (rw (role_in, e) (role_in-rewrite_self role ms (rw e at h)))
  ]

  role_in-rewrite :
      (role : String) (ms : List MembershipRow)
      → any (is_member t u) ms ≡ true
      → (x y : String)
      → role_in x y (rewrite (is_member t u) (with_role role) ms)
        ≡ put t u (some role) (λ a b. role_in a b ms) x y
  role_in-rewrite role ms h x y = elim (Bool-cases (str_eq t x && str_eq u y)) [
    | inl e ↦
        let (p, q) = and-eq_true (str_eq t x) (str_eq u y) e in
        rw e (rw (sym ((eq_iff t x).0 p), sym ((eq_iff u y).0 q)) (role_in-rewrite_self role ms h))
    | inr e ↦ rw e (role_in-rewrite_other t u x y role e ms)
  ]

-- the writes of one membership
pub data Write : Type 0 where
  added : MembershipRow → Write
  changed : String → String → String → Write
  removed : String → String → Write

abbrev pub write : Write → Db → Result ℕ × Db
write (added m) d = insert m d
write (changed tenant_id user_id role) d = set_role tenant_id user_id role d
write (removed tenant_id user_id) d = delete tenant_id user_id d

abbrev pub Same : Roster → Roster → Type 0
Same g f = (x y : String) → g x y ≡ f x y

-- what a write that reports a number of rows does to the map
abbrev pub Effect : Write → Roster → ℕ → Roster → Type 0
Effect (added m) f n g =
    (n ≡ 1)
    × (storable_role m.tenant_role ≡ true)
    × (f m.tenant_id m.user_id ≡ none)
    × Same g (put m.tenant_id m.user_id (some m.tenant_role) f)
Effect (changed t u role) f n g =
    ((n ≡ 0) × (f t u ≡ none) × Same g f)
    ⊎ ((0 < n) × ¬ (f t u ≡ none) × (storable_role role ≡ true) × Same g (put t u (some role) f))
Effect (removed t u) f n g = ((f t u ≡ none) ↔ (n ≡ 0)) × Same g (put t u none f)

not-eq_false : (b : Bool) → not b ≡ false → b ≡ true
not-eq_false b h = ground arith

role_in-cons :
    (m : MembershipRow) (ms : List MembershipRow) (x y : String)
    → role_in x y (m ∷ ms)
      ≡ put m.tenant_id m.user_id (some m.tenant_role) (λ a b. role_in a b ms) x y
role_in-cons m ms x y = elim (Bool-cases (is_member x y m)) [
  | inl e ↦ rw (role_in, e) refl
  | inr e ↦ rw (role_in, e) refl
]

-- The statements that write memberships implement the map from a tenant and a user to a role: an
-- insertion that succeeds gives a key that had no role one of the two roles, a change that reports no
-- row found no role and leaves the map, one that reports a row gives the key that had a role another
-- of the two roles, a deletion reports a row just where the key had a role, and leaves it none; each
-- leaves every other key alone, and a write that fails leaves the map.
pub writes_refine_roster :
    (w : Write) (d : Db)
    → Left (λ n x. Effect w (roster d) n (roster x)) (λ e x. Same (roster x) (roster d)) (write w d)
unfolding insert set_role delete role_of
writes_refine_roster (added m) d =
    checked-Left _ _ (insert_checks m d) 1 _ d (λ p x y. refl)
      (λ p. (
        refl,
        not-eq_false _ p.1.1.1.1.0,
        none_held m.tenant_id m.user_id d.memberships p.1.1.1.1.1.0,
        role_in-cons m d.memberships,
      ))
writes_refine_roster (changed t u role) d = elim (Bool-cases (any (is_member t u) d.memberships)) [
  | inr e ↦ rw (set_role, e) (inl (refl, none_held t u d.memberships e, λ x y. refl))
  | inl e ↦
      rw (set_role, e)
        (checked-Left _ _ (set_role_checks role) _ _ d (λ p x y. refl)
          (λ p.
            let some_ : 0 < count_of (is_member t u) d.memberships =
              count_of-any t u d.memberships e in
            inr (
              some_,
              (λ k. omega (arith, some_, (count_of-role t u d.memberships).0 k)),
              not-eq_false _ p.1.0,
              role_in-rewrite t u role d.memberships e,
            )))
]
writes_refine_roster (removed t u) d =
    (count_of-role t u d.memberships, λ x y. role_in-reject t u x y d.memberships)
