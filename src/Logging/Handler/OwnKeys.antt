-- ===== src/Logging/Handler/OwnKeys.antt =====
-- The keys that Cloud Logging reads belong to the handler.
use tolo_tenant_management.Prelude.{
  ◌≡◌, refl, ap, String, Bool, true, false, ◌&&◌, inl, inr, [], arith, str_eq, eq_iff, Bool-cases,
}
use tolo_tenant_management.Text.{is_empty}
use tolo_tenant_management.Logging.Attr.{
  Value, text, flag, moment, level, source, null, other, group, Attrs, nil, attr, any_key,
  count_key, count_key-append,
}
use tolo_tenant_management.Logging.Reserved.{Formats, is_reserved, replace_attr}
use tolo_tenant_management.Logging.Json.{field, is_null, in_group, written, written_one}

module _ (key : String) (reserved : is_reserved key ≡ true) where
  differs : (k : String) → is_reserved k ≡ false → str_eq k key ≡ false
  differs k h = elim (Bool-cases (str_eq k key)) [
    | inl e ↦
        let same : k ≡ key = (eq_iff k key).0 e in
        absurd (ground (arith, reserved, h, ap is_reserved same))
    | inr e ↦ e
  ]

  count-field : (k : String) (v : Value) → is_reserved k ≡ false → count_key key (field (k, v)) ≡ 0
  count-field k v h = elim (Bool-cases (is_empty k && is_null v)) [
    | inl e ↦ rw e refl
    | inr e ↦ rw (e, differs k h) refl
  ]

  pub count-in_group :
      (k : String) (body : Attrs)
      → is_reserved k ≡ false
      → is_empty k ≡ false
      → count_key key (in_group k body) ≡ 0
  count-in_group k nil h e = rw e refl
  count-in_group k (attr j v more) h e = rw (e, differs k h) refl

replace-unreserved :
    (f : Formats) (k : String) (v : Value) → is_reserved k ≡ false → replace_attr f [] k v ≡ (k, v)
unfolding replace_attr is_reserved
replace-unreserved f k v h =
    rw
      (
        differs "time" refl k h,
        differs "level" refl k h,
        differs "msg" refl k h,
        differs "source" refl k h,
      )
      refl

abbrev pub is_group : Value → Bool
is_group (group as_) = true
is_group (text s) = false
is_group (flag b) = false
is_group (moment t) = false
is_group (level l) = false
is_group (source s) = false
is_group null = false
is_group (other s) = false

-- no group stands without a name, to be written in place
abbrev pub Plain : Attrs → Type 0
Plain nil = Unit
Plain (attr k v more) = (is_group v ≡ true → is_empty k ≡ false) × Plain more

module _ (key : String) (reserved : is_reserved key ≡ true) (f : Formats) where
  leaf :
      (k : String) (v : Value)
      → is_reserved k ≡ false
      → count_key key (field (replace_attr f [] k v)) ≡ 0
  leaf k v h = rw (replace-unreserved f k v h) (count-field key reserved k v h)

  count-written_one :
      (k : String) (v : Value)
      → is_reserved k ≡ false
      → (is_group v ≡ true → is_empty k ≡ false)
      → count_key key (written_one f [] k v) ≡ 0
  unfolding written_one
  count-written_one k (text s) h p = leaf k (text s) h
  count-written_one k (flag b) h p = leaf k (flag b) h
  count-written_one k (moment t) h p = leaf k (moment t) h
  count-written_one k (level l) h p = leaf k (level l) h
  count-written_one k (source s) h p = leaf k (source s) h
  count-written_one k null h p = leaf k null h
  count-written_one k (other s) h p = leaf k (other s) h
  count-written_one k (group as_) h p = count-in_group key reserved k _ h (p refl)

  pub count-written :
      (as_ : Attrs)
      → any_key is_reserved as_ ≡ false
      → Plain as_
      → count_key key (written f [] as_) ≡ 0
  unfolding written
  count-written nil h p = refl
  count-written (attr k v more) h p = elim (Bool-cases (is_reserved k)) [
    | inl e ↦ ground (arith, h, e)
    | inr e ↦ omega (
      arith,
      count_key-append key (written_one f [] k v) (written f [] more),
      count-written_one k v e p.0,
      count-written more (rw e at h) p.1,
    )
  ]
