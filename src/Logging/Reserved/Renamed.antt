-- ===== src/Logging/Reserved/Renamed.antt =====
-- What the renaming of reserved keys leaves.
use tolo_tenant_management.Prelude.{◌≡◌, refl, sym, ap, String, false, inl, inr, arith, Bool-cases}
use tolo_tenant_management.Text
use tolo_tenant_management.Text.{head_code, head-differs}
use tolo_tenant_management.Logging.Attr.{Attrs, nil, attr, any_key}
use tolo_tenant_management.Logging.Reserved.{
  is_reserved, reserved_prefix, rename_reserved, rename_each, rename_reserved_attrs,
}

-- A key behind the prefix is not reserved.
prefixed-unreserved : (key : String) → is_reserved (Text.append reserved_prefix key) ≡ false
unfolding is_reserved
prefixed-unreserved key =
    let p : String = Text.append reserved_prefix key in
    rw
      (
        head-differs p "time" (omega arith),
        head-differs p "severity" (omega arith),
        head-differs p "message" (omega arith),
        head-differs p "level" (omega arith),
        head-differs p "msg" (omega arith),
        head-differs p "source" (omega arith),
      )
      refl

rename-unreserved : (key : String) → is_reserved (rename_reserved key) ≡ false
rename-unreserved key = elim (Bool-cases (is_reserved key)) [
  | inl e ↦ rw e (prefixed-unreserved key)
  | inr e ↦ rw e e
]

rename_each-unreserved : (as_ : Attrs) → any_key is_reserved (rename_each as_) ≡ false
rename_each-unreserved nil = refl
rename_each-unreserved (attr k v more) = rw (rename-unreserved k) (rename_each-unreserved more)

rename_each-eq_self : (as_ : Attrs) → any_key is_reserved as_ ≡ false → rename_each as_ ≡ as_
rename_each-eq_self nil h = refl
rename_each-eq_self (attr k v more) h = elim (Bool-cases (is_reserved k)) [
  | inl e ↦ ground (arith, h, e)
  | inr e ↦ rw e (ap (attr k v) (rename_each-eq_self more (rw e at h)))
]

pub rename_reserved_attrs-unreserved :
    (as_ : Attrs) → any_key is_reserved (rename_reserved_attrs as_) ≡ false
unfolding rename_reserved_attrs
rename_reserved_attrs-unreserved as_ = elim (Bool-cases (any_key is_reserved as_)) [
  | inl e ↦ rw e (rename_each-unreserved as_)
  | inr e ↦ rw e e
]

-- Attributes whose keys collide with nothing stay as they are, and the result of the renaming is that
-- of renaming each key.
pub rename_reserved_attrs-eq_each : (as_ : Attrs) → rename_reserved_attrs as_ ≡ rename_each as_
unfolding rename_reserved_attrs
rename_reserved_attrs-eq_each as_ = elim (Bool-cases (any_key is_reserved as_)) [
  | inl e ↦ rw e refl
  | inr e ↦ rw e (sym (rename_each-eq_self as_ e))
]
