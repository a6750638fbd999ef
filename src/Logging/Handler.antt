-- ===== src/Logging/Handler.antt =====
-- traceHandler of internal/logging/handler.go. What is handled is the object that the JSON handler
-- writes.
pub mod OwnKeys
pub mod Derived
pub mod Entry
pub mod Groups
use tolo_tenant_management.Prelude.{
  String, Bool, false, not, ◌||◌, ℤ, Option, none, some, List, [], ◌∷◌, ◌++◌, if◌then◌else◌,
}
use tolo_tenant_management.Text
use tolo_tenant_management.Text.{is_empty}
use tolo_tenant_management.Logging.Level.{level_info}
use tolo_tenant_management.Logging.Attr.{text, flag, Attrs, nil, attr, any_key}
use tolo_tenant_management.Logging.Reserved.{
  Formats, is_reserved, rename_each, rename_reserved_attrs, key_trace, key_span_id,
  key_trace_sampled,
}
use tolo_tenant_management.Logging.Json
use tolo_tenant_management.Logging.Json.{Json, Record, render}

-- a valid span context
pub record Span : Type 0 where
  pub trace_id : String
  pub span_id : String
  pub sampled : Bool

-- a nil Leveler is none
pub record Options : Type 0 where
  pub level : Option ℤ
  pub add_source : Bool
  pub project_id : String

pub record HandlerOp : Type 0 where
  pub attrs : Attrs
  pub group : String

pub record TraceHandler : Type 0 where
  pub base : Json
  pub inner : Json
  pub ops : List HandlerOp
  pub project_id : String
  pub grouped : Bool

abbrev pub apply : HandlerOp → Json → Json
apply o j = if not (is_empty o.group) then Json.with_group o.group j else Json.with_attrs o.attrs j

-- the loop over the operations, and the flag that it computes
abbrev pub apply_all : List HandlerOp → Json → Json
apply_all [] j = j
apply_all (o ∷ os) j = apply_all os (apply o j)

abbrev pub opens : Bool → List HandlerOp → Bool
opens grouped [] = grouped
opens grouped (o ∷ os) = opens (grouped || not (is_empty o.group)) os

unfoldable pub new_trace_handler : Json → List HandlerOp → String → TraceHandler
new_trace_handler base ops project_id = record {
  base = base;
  inner = apply_all ops base;
  ops = ops;
  project_id = project_id;
  grouped = opens false ops;
}

unfoldable pub new_handler : Options → TraceHandler
unfolding new_trace_handler
new_handler opts =
    new_trace_handler
      (record {
        level = elim opts.level [ none ↦ level_info | some l ↦ l ];
        add_source = opts.add_source;
        steps = [];
      })
      [] opts.project_id

unfoldable pub enabled : TraceHandler → ℤ → Bool
enabled h level = Json.enabled h.inner level

unfoldable pub with_attrs : TraceHandler → Attrs → TraceHandler
unfolding new_trace_handler rename_reserved_attrs
with_attrs h nil = h
with_attrs h (attr k v more) =
    let as_ = attr k v more in
    new_trace_handler h.base
      (h.ops
        ++ (record { attrs = if not h.grouped then rename_reserved_attrs as_ else as_; group = "" }
            ∷ []))
      h.project_id

unfoldable pub with_group : TraceHandler → String → TraceHandler
unfolding new_trace_handler
with_group h name =
    if is_empty name
    then h
    else new_trace_handler h.base (h.ops ++ (record { attrs = nil; group = name } ∷ []))
        h.project_id

abbrev pub trace_resource_name : String → String → String
trace_resource_name project_id trace_id =
    if is_empty project_id
    then trace_id
    else Text.append "projects/" (Text.append project_id (Text.append "/traces/" trace_id))

abbrev pub trace_fields : String → Span → Attrs
trace_fields project_id s =
    attr key_trace (text (trace_resource_name project_id s.trace_id))
      (attr key_span_id (text s.span_id) (attr key_trace_sampled (flag s.sampled) nil))

unfoldable pub rename_reserved_record : Record → Record
unfolding is_reserved
rename_reserved_record r =
    if not (any_key is_reserved r.attrs) then r else record r { attrs = rename_each r.attrs }

abbrev pub handle_record : Formats → TraceHandler → Option Span → Record → Attrs
handle_record f h none r = render f h.inner r
handle_record f h (some s) r =
    render f (apply_all h.ops (Json.with_attrs (trace_fields h.project_id s) h.base)) r

unfoldable pub handle : Formats → TraceHandler → Option Span → Record → Attrs
unfolding rename_reserved_record render
handle f h span r = handle_record f h span (if not h.grouped then rename_reserved_record r else r)
