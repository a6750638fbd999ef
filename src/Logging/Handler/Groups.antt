-- ===== src/Logging/Handler/Groups.antt =====
-- Groups under a reserved name: WithGroup of internal/logging/handler.go.
use tolo_tenant_management.Prelude.{
  ◌≡◌, refl, ◌∙◌, [], ◌∷◌, String, none, inl, inr, arith, Bool-cases,
}
use tolo_tenant_management.Text.{is_empty}
use tolo_tenant_management.Logging.Attr.{text, Attrs, attr, count_key, count_key-append}
use tolo_tenant_management.Logging.Reserved.{Formats, replace_attr}
use tolo_tenant_management.Logging.Json.{
  Record, opened, written, written_one, body, builtins, render,
}
use tolo_tenant_management.Logging.Handler.{Options, new_handler, with_group, handle}
use tolo_tenant_management.Logging.Handler.Entry.{own_counts}

-- a record with one text beside others
abbrev pub noted : Record → String → String → Attrs → Record
noted r name s more = record r { attrs = attr name (text s) more }

grouped_body :
    (f : Formats) (name s : String) (more : Attrs)
    → count_key "severity" (body f [] (opened "severity" ∷ []) (attr name (text s) more)) ≡ 1
unfolding body written written_one replace_attr
grouped_body f name s more = elim (Bool-cases (is_empty name)) [
  | inl e ↦ rw e refl
  | inr e ↦ rw e refl
]

-- A group that is opened under the name severity is not renamed: the object that is written of a
-- record with a text attribute then has two fields of that name at the top level, whatever else it
-- holds.
pub reserved_group_collides :
    (f : Formats) (opts : Options) (r : Record) (name s : String) (more : Attrs)
    → count_key "severity"
        (handle f (with_group (new_handler opts) "severity") none (noted r name s more))
      ≡ 2
unfolding handle with_group new_handler render
reserved_group_collides f opts r name s more =
    count_key-append "severity" (builtins f opts.add_source (noted r name s more))
      (body f [] (opened "severity" ∷ []) (attr name (text s) more))
    ∙ omega (arith, (own_counts f opts none (noted r name s more)).0, grouped_body f name s more)
