-- ===== src/Logging/Attr.antt =====
-- Attributes as log/slog has them, their values resolved, and the JSON objects that are written of
-- them: an object is its fields in order, a name that stands twice included.
use tolo_tenant_management.Prelude.{
  ℕ, ◌+◌, suc, String, Bool, true, false, ℤ, ◌≡◌, str_eq, if◌then◌else◌, arith,
}

pub record Source : Type 0 where
  pub file : String
  pub line : ℕ
  pub function : String

-- `null` is the zero value, and `other` is any value that the program does not look into, by its
-- text.
mutual
  pub data Value : Type 0 where
    text : String → Value
    flag : Bool → Value
    moment : ℕ → Value
    level : ℤ → Value
    source : Source → Value
    null : Value
    other : String → Value
    group : Attrs → Value

  pub data Attrs : Type 0 where
    nil : Attrs
    attr : String → Value → Attrs → Attrs

abbrev pub append : Attrs → Attrs → Attrs
append nil bs = bs
append (attr k v more) bs = attr k v (append more bs)

-- some name satisfies a condition
abbrev pub any_key : (String → Bool) → Attrs → Bool
any_key p nil = false
any_key p (attr k v more) = if p k then true else any_key p more

-- how often a name stands at the top level
abbrev pub count_key : String → Attrs → ℕ
count_key key nil = 0
count_key key (attr k v more) =
    let rest = count_key key more in if str_eq k key then suc rest else rest

pub count_key-append :
    (key : String) (as_ bs : Attrs)
    → count_key key (append as_ bs) ≡ count_key key as_ + count_key key bs
count_key-append key nil bs = omega arith
count_key-append key (attr k v more) bs = ground (arith, count_key-append key more bs)
