-- ===== src/Logging/Json.antt =====
-- The handler of `slog.NewJSONHandler` as far as the program uses it: WithAttrs, WithGroup, Enabled,
-- and the object that Handle writes of a record. A group that nothing is written in is left out, a
-- group without a name is written in place, and an attribute without a name and a value is left out.
use tolo_tenant_management.Prelude.{
  ℕ, String, Bool, true, false, not, ◌&&◌, ℤ, Option, none, some, List, [], ◌∷◌, ◌++◌, ltb_ℤ,
  if◌then◌else◌,
}
use tolo_tenant_management.Text.{is_empty}
use tolo_tenant_management.Logging.Attr.{
  Source, Value, text, flag, moment, level, source, null, other, group, Attrs, nil, attr, append,
}
use tolo_tenant_management.Logging.Reserved.{Formats, replace_attr}

pub data Step : Type 0 where
  attributes : Attrs → Step
  opened : String → Step

pub record Json : Type 0 where
  pub level : ℤ
  pub add_source : Bool
  pub steps : List Step

-- `slog.Record`: the zero time is none, and the source is that of the PC.
pub record Record : Type 0 where
  pub time : Option ℕ
  pub level : ℤ
  pub message : String
  pub source : Source
  pub attrs : Attrs

abbrev pub with_attrs : Attrs → Json → Json
with_attrs as_ j = record j { steps = j.steps ++ (attributes as_ ∷ []) }

abbrev pub with_group : String → Json → Json
with_group name j = record j { steps = j.steps ++ (opened name ∷ []) }

abbrev pub enabled : Json → ℤ → Bool
enabled j l = not (ltb_ℤ l j.level)

-- the groups that are open under a key
abbrev pub under : List String → String → List String
under groups key = if is_empty key then groups else key ∷ groups

abbrev pub named_group : String → Attrs → Attrs
named_group key nil = nil
named_group key (attr k v more) = attr key (group (attr k v more)) nil

abbrev pub in_group : String → Attrs → Attrs
in_group key body = if is_empty key then body else named_group key body

abbrev pub is_null : Value → Bool
is_null null = true
is_null (text s) = false
is_null (flag b) = false
is_null (moment t) = false
is_null (level l) = false
is_null (source s) = false
is_null (other s) = false
is_null (group as_) = false

abbrev pub field : String × Value → Attrs
field (k, v) = if is_empty k && is_null v then nil else attr k v nil

unfoldable mutual
  pub written_one : Formats → List String → String → Value → Attrs
  written_one f groups k (text s) = field (replace_attr f groups k (text s))
  written_one f groups k (flag b) = field (replace_attr f groups k (flag b))
  written_one f groups k (moment t) = field (replace_attr f groups k (moment t))
  written_one f groups k (level l) = field (replace_attr f groups k (level l))
  written_one f groups k (source s) = field (replace_attr f groups k (source s))
  written_one f groups k null = field (replace_attr f groups k null)
  written_one f groups k (other s) = field (replace_attr f groups k (other s))
  written_one f groups k (group as_) = in_group k (written f (under groups k) as_)

  pub written : Formats → List String → Attrs → Attrs
  written f groups nil = nil
  written f groups (attr k v more) = append (written_one f groups k v) (written f groups more)

-- what WithAttrs and WithGroup were given, and the record's own attributes inside
unfoldable pub body : Formats → List String → List Step → Attrs → Attrs
unfolding written
body f groups [] as_ = written f groups as_
body f groups (attributes bs ∷ more) as_ = append (written f groups bs) (body f groups more as_)
body f groups (opened g ∷ more) as_ = in_group g (body f (under groups g) more as_)

abbrev pub time_field : Formats → Option ℕ → Attrs
time_field f none = nil
time_field f (some t) = written_one f [] "time" (moment t)

-- the fields of the record itself
unfoldable pub builtins : Formats → Bool → Record → Attrs
unfolding written_one
builtins f add_source r = append (time_field f r.time) (
    append (written_one f [] "level" (level r.level)) (
      append (if add_source then written_one f [] "source" (source r.source) else nil)
        (written_one f [] "msg" (text r.message))))

unfoldable pub render : Formats → Json → Record → Attrs
unfolding builtins body
render f j r = append (builtins f j.add_source r) (body f [] j.steps r.attrs)
