-- ===== src/Logging/Handler/Entry.antt =====
-- The object that is written of a record.
use tolo_tenant_management.Prelude.{
  ℕ, ◌+◌, ◌≡◌, refl, sym, ap, ◌∙◌, String, Bool, true, false, not, Option, none, some, inl, inr,
  List, [], ◌∷◌, ◌++◌, map, arith, Bool-cases, if◌then◌else◌,
}
use mathlib.Core.List.{append-nil, append_assoc}
use tolo_tenant_management.Text.{is_empty}
use tolo_tenant_management.Logging.Attr.{
  text, Attrs, nil, append, any_key, count_key, count_key-append,
}
use tolo_tenant_management.Logging.Attr.{level, source}
use tolo_tenant_management.Logging.Reserved.{
  Formats, replace_attr, is_reserved, rename_reserved_attrs, key_trace,
}
use tolo_tenant_management.Logging.Json
use tolo_tenant_management.Logging.Json.{
  Json, Record, Step, attributes, opened, in_group, written, written_one, body, builtins, render,
}
use tolo_tenant_management.Logging.Handler
use tolo_tenant_management.Logging.Handler.{
  Options, Span, HandlerOp, TraceHandler, apply, apply_all, opens, new_handler, trace_fields,
  rename_reserved_record, handle,
}
use tolo_tenant_management.Logging.Handler.OwnKeys.{Plain, count-in_group, count-written}
use tolo_tenant_management.Logging.Handler.Derived.{
  Derived, Clean, CleanOps, Clean-rename, IsBuilt, Derived-IsBuilt,
}

-- the step of the JSON handler that an operation is
abbrev step_of : HandlerOp → Step
step_of o = if not (is_empty o.group) then opened o.group else attributes o.attrs

apply-steps : (o : HandlerOp) (j : Json) → (apply o j).steps ≡ j.steps ++ (step_of o ∷ [])
apply-steps o j = elim (Bool-cases (is_empty o.group)) [ inl e ↦ rw e refl | inr e ↦ rw e refl ]

apply-source : (o : HandlerOp) (j : Json) → (apply o j).add_source ≡ j.add_source
apply-source o j = elim (Bool-cases (is_empty o.group)) [ inl e ↦ rw e refl | inr e ↦ rw e refl ]

apply_all-steps :
    (os : List HandlerOp) (j : Json) → (apply_all os j).steps ≡ j.steps ++ map step_of os
apply_all-steps [] j = sym (append-nil j.steps)
apply_all-steps (o ∷ os) j =
    apply_all-steps os (apply o j)
    ∙ ap (λ s. s ++ map step_of os) (apply-steps o j)
    ∙ append_assoc j.steps (step_of o ∷ []) (map step_of os)

apply_all-source : (os : List HandlerOp) (j : Json) → (apply_all os j).add_source ≡ j.add_source
apply_all-source [] j = refl
apply_all-source (o ∷ os) j = apply_all-source os (apply o j) ∙ apply-source o j

module _ (key : String) (reserved : is_reserved key ≡ true) (f : Formats) (as_ : Attrs) where
  -- no operation and no attribute of a record writes the key at the top level
  count-body :
      (os : List HandlerOp)
      → CleanOps os
      → (opens false os ≡ false → Clean as_)
      → count_key key (body f [] (map step_of os) as_) ≡ 0
  unfolding body
  count-body [] h k = count-written key reserved f as_ (k refl).0 (k refl).1
  count-body (o ∷ os) h k = elim (Bool-cases (is_empty o.group)) [
    | inl e ↦ rw e (
        omega (
          arith,
          count_key-append key (written f [] o.attrs) (body f [] (map step_of os) as_),
          count-written key reserved f o.attrs (h.0 e).0.0 (h.0 e).0.1,
          count-body os (h.0 e).1 (λ n. k (rw e n)),
        ))
    | inr e ↦ rw e (count-in_group key reserved o.group _ (h.1 e) e)
  ]

-- the record that the JSON handler is given
abbrev renamed : TraceHandler → Record → Record
renamed h r = if not h.grouped then rename_reserved_record r else r

abbrev same_but_attrs : Record → Attrs → Record
same_but_attrs r as_ = record r { attrs = as_ }

renamed-eq :
    (h : TraceHandler) (r : Record)
    → renamed h r
      ≡ same_but_attrs r (if not h.grouped then rename_reserved_attrs r.attrs else r.attrs)
unfolding rename_reserved_record rename_reserved_attrs
renamed-eq h r = elim (Bool-cases h.grouped) [
  | inl e ↦ rw e refl
  | inr e ↦ elim (Bool-cases (any_key is_reserved r.attrs)) [
    | inl a ↦ rw (e, a) refl
    | inr a ↦ rw (e, a) refl
  ]
]

-- the fields that belong to the handler
abbrev pub own_fields : Formats → Options → Option Span → Record → Attrs
own_fields f opts none r = builtins f opts.add_source r
own_fields f opts (some s) r =
    append (builtins f opts.add_source r) (trace_fields opts.project_id s)

builtins-attrs :
    (f : Formats) (add_source : Bool) (r : Record) (as_ : Attrs)
    → builtins f add_source (same_but_attrs r as_) ≡ builtins f add_source r
unfolding builtins
builtins-attrs f add_source r as_ = refl

written-trace_fields :
    (f : Formats) (project_id : String) (s : Span)
    → written f [] (trace_fields project_id s) ≡ trace_fields project_id s
unfolding written replace_attr
written-trace_fields f project_id s = refl

module _ (f : Formats) (opts : Options) (h : TraceHandler) (b : IsBuilt opts h) (r : Record)
    (key : String) (reserved : is_reserved key ≡ true) where
  count-render :
      (j : Json) (as_ : Attrs) (steps : List Step)
      → j.steps ≡ steps
      → j.add_source ≡ opts.add_source
      → count_key key (render f j (same_but_attrs r as_))
        ≡ count_key key (builtins f opts.add_source r) + count_key key (body f [] steps as_)
  unfolding render
  count-render j as_ steps e k =
      count_key-append key (builtins f j.add_source (same_but_attrs r as_)) (body f [] j.steps as_)
      ∙ rw (e, k, builtins-attrs f opts.add_source r as_) refl

  count-traced :
      (s : Span) (as_ : Attrs)
      → (opens false h.ops ≡ false → Clean as_)
      → count_key key (body f [] (attributes (trace_fields h.project_id s) ∷ map step_of h.ops) as_)
        ≡ count_key key (trace_fields opts.project_id s)
  unfolding body
  count-traced s as_ c =
      count_key-append key (written f [] (trace_fields h.project_id s))
        (body f [] (map step_of h.ops) as_)
      ∙ rw (written-trace_fields f h.project_id s, count-body key reserved f as_ h.ops b.clean c)
          (omega (arith, ap (λ p. count_key key (trace_fields p s)) b.project))

  count-handled :
      (span : Option Span) (as_ : Attrs)
      → (opens false h.ops ≡ false → Clean as_)
      → count_key key (Handler.handle_record f h span (same_but_attrs r as_))
        ≡ count_key key (own_fields f opts span r)
  unfolding new_handler
  count-handled none as_ c =
      count-render h.inner as_ (map step_of h.ops)
        (ap (λ j. j.steps) b.inner
          ∙ apply_all-steps h.ops h.base
          ∙ ap (λ j. j.steps ++ map step_of h.ops) b.base)
        (ap (λ j. j.add_source) b.inner
          ∙ apply_all-source h.ops h.base
          ∙ ap (λ j. j.add_source) b.base)
      ∙ omega (arith, count-body key reserved f as_ h.ops b.clean c)
  count-handled (some s) as_ c =
      count-render (apply_all h.ops (Json.with_attrs (trace_fields h.project_id s) h.base)) as_
        (attributes (trace_fields h.project_id s) ∷ map step_of h.ops)
        (apply_all-steps h.ops (Json.with_attrs (trace_fields h.project_id s) h.base)
          ∙ ap
              (λ j.
                (j.steps ++ (attributes (trace_fields h.project_id s) ∷ [])) ++ map step_of h.ops)
              b.base)
        (apply_all-source h.ops (Json.with_attrs (trace_fields h.project_id s) h.base)
          ∙ ap (λ j. j.add_source) b.base)
      ∙ omega (
        arith,
        count-traced s as_ c,
        count_key-append key (builtins f opts.add_source r) (trace_fields opts.project_id s),
      )

-- how often a record has a trace
abbrev pub traced : Option Span → ℕ
traced none = 0
traced (some s) = 1

-- the fields of the record itself, its time and the source beside it
abbrev parts : Formats → Bool → Option ℕ → Record → Attrs
parts f add_source time r = append (Json.time_field f time) (
    append (written_one f [] "level" (level r.level)) (
      append (if add_source then written_one f [] "source" (source r.source) else nil)
        (written_one f [] "msg" (text r.message))))

part_counts :
    (f : Formats) (add_source : Bool) (time : Option ℕ) (r : Record)
    → (count_key "severity" (parts f add_source time r) ≡ 1)
      × (count_key "message" (parts f add_source time r) ≡ 1)
      × (count_key key_trace (parts f add_source time r) ≡ 0)
unfolding written_one replace_attr
part_counts f true none r = (refl, refl, refl)
part_counts f true (some t) r = (refl, refl, refl)
part_counts f false none r = (refl, refl, refl)
part_counts f false (some t) r = (refl, refl, refl)

pub own_counts :
    (f : Formats) (opts : Options) (span : Option Span) (r : Record)
    → (count_key "severity" (own_fields f opts span r) ≡ 1)
      × (count_key "message" (own_fields f opts span r) ≡ 1)
      × (count_key key_trace (own_fields f opts span r) ≡ traced span)
unfolding builtins
own_counts f opts none r = part_counts f opts.add_source r.time r
own_counts f opts (some s) r =
    let (severity, message, trace) = part_counts f opts.add_source r.time r in
    let own : Attrs = builtins f opts.add_source r in
    let fields : Attrs = trace_fields opts.project_id s in
    (
      count_key-append "severity" own fields ∙ omega (arith, severity),
      count_key-append "message" own fields ∙ omega (arith, message),
      count_key-append key_trace own fields ∙ omega (arith, trace),
    )

-- In the object that is written of a record, a reserved key stands at the top level exactly as often
-- as among the fields that the handler writes itself, which have one severity, one message, and one
-- trace where there is a span: for every handler that is derived of a new one by attributes and
-- groups, where no group is opened under a reserved name, and neither the record nor the handler's
-- attributes have a group without a name.
pub reserved_keys_are_own :
    (f : Formats) (opts : Options) (h : TraceHandler) (span : Option Span) (r : Record)
    → Derived opts h
    → Plain r.attrs
    → ((key : String)
        → is_reserved key ≡ true
        → count_key key (handle f h span r) ≡ count_key key (own_fields f opts span r))
      × (count_key "severity" (handle f h span r) ≡ 1)
      × (count_key "message" (handle f h span r) ≡ 1)
      × (count_key key_trace (handle f h span r) ≡ traced span)
unfolding handle is_reserved
reserved_keys_are_own f opts h span r d p = (
  counted,
  counted "severity" refl ∙ (own_counts f opts span r).0,
  counted "message" refl ∙ (own_counts f opts span r).1,
  counted key_trace refl ∙ (own_counts f opts span r).2,
)
  where
    b : IsBuilt opts h
    b = Derived-IsBuilt d

    counted :
        (key : String)
        → is_reserved key ≡ true
        → count_key key (handle f h span r) ≡ count_key key (own_fields f opts span r)
    counted key reserved =
        ap (λ x. count_key key (Handler.handle_record f h span x)) (renamed-eq h r)
        ∙ count-handled f opts h b r key reserved span
            (if not h.grouped then rename_reserved_attrs r.attrs else r.attrs)
            (λ e. rw (b.grouped ∙ e) (Clean-rename r.attrs p))
