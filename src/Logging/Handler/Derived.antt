-- ===== src/Logging/Handler/Derived.antt =====
-- The handlers that are made of a new one by WithAttrs and WithGroup, and what holds of them all.
use tolo_tenant_management.Prelude.{
  ◌≡◌, refl, ◌∙◌, String, true, false, inl, inr, List, [], ◌∷◌, ◌++◌, arith, Bool-cases,
}
use tolo_tenant_management.Text.{is_empty}
use tolo_tenant_management.Logging.Attr.{Attrs, nil, attr, any_key}
use tolo_tenant_management.Logging.Reserved.{is_reserved, rename_each, rename_reserved_attrs}
use tolo_tenant_management.Logging.Reserved.Renamed.{
  rename_reserved_attrs-unreserved, rename_reserved_attrs-eq_each,
}
use tolo_tenant_management.Logging.Handler.{
  Options, HandlerOp, TraceHandler, apply_all, opens, new_trace_handler, new_handler, with_attrs,
  with_group,
}
use tolo_tenant_management.Logging.Handler.OwnKeys.{Plain}

-- A group opened under a reserved name would take the place of that key, so none is opened here.
pub data Derived (opts : Options) : TraceHandler → Type 0 where
  made : Derived opts (new_handler opts)
  attrs :
      {h : TraceHandler}
      → Derived opts h
      → (as_ : Attrs) → Plain as_
      → Derived opts (with_attrs h as_)
  group :
      {h : TraceHandler}
      → Derived opts h
      → (name : String) → is_reserved name ≡ false
      → Derived opts (with_group h name)

abbrev pub Clean : Attrs → Type 0
Clean as_ = (any_key is_reserved as_ ≡ false) × Plain as_

-- What stands at the top level has no reserved key.
abbrev pub CleanOps : List HandlerOp → Type 0
CleanOps [] = Unit
CleanOps (o ∷ os) =
    (is_empty o.group ≡ true → Clean o.attrs × CleanOps os)
    × (is_empty o.group ≡ false → is_reserved o.group ≡ false)

Plain-rename_each : (as_ : Attrs) → Plain as_ → Plain (rename_each as_)
Plain-rename_each nil p = tt
Plain-rename_each (attr k v more) p = elim (Bool-cases (is_reserved k)) [
  | inl e ↦ rw e (λ _. refl, Plain-rename_each more p.1)
  | inr e ↦ rw e (p.0, Plain-rename_each more p.1)
]

pub Clean-rename : (as_ : Attrs) → Plain as_ → Clean (rename_reserved_attrs as_)
Clean-rename as_ p = (
  rename_reserved_attrs-unreserved as_,
  rw (rename_reserved_attrs-eq_each as_) (Plain-rename_each as_ p),
)

opens-true : (os : List HandlerOp) → opens true os ≡ true
opens-true [] = refl
opens-true (o ∷ os) = opens-true os

-- an operation behind others is at the top level where no group is open
CleanOps-append :
    (os : List HandlerOp) (o : HandlerOp)
    → CleanOps os
    → (opens false os ≡ false → CleanOps (o ∷ []))
    → CleanOps (os ++ (o ∷ []))
CleanOps-append [] o h k = k refl
CleanOps-append (p ∷ os) o h k =
    (λ e. ((h.0 e).0, CleanOps-append os o (h.0 e).1 (λ n. k (rw e n))), h.1)

-- what every handler is built as
pub record IsBuilt (opts : Options) (h : TraceHandler) : Type 0 where
  pub base : h.base ≡ (new_handler opts).base
  pub inner : h.inner ≡ apply_all h.ops h.base
  pub grouped : h.grouped ≡ opens false h.ops
  pub project : h.project_id ≡ opts.project_id
  pub clean : CleanOps h.ops

new-IsBuilt :
    (opts : Options) (h : TraceHandler) (o : HandlerOp)
    → IsBuilt opts h
    → (h.grouped ≡ false → CleanOps (o ∷ []))
    → IsBuilt opts (new_trace_handler h.base (h.ops ++ (o ∷ [])) h.project_id)
unfolding new_trace_handler
new-IsBuilt opts h o b k = record {
  base = b.base;
  inner = refl;
  grouped = refl;
  project = b.project;
  clean = CleanOps-append h.ops o b.clean (λ e. k (b.grouped ∙ e));
}

pub Derived-IsBuilt : {opts : Options} {h : TraceHandler} → Derived opts h → IsBuilt opts h
unfolding new_handler with_attrs with_group
Derived-IsBuilt made = record {
  base = refl;
  inner = refl;
  grouped = refl;
  project = refl;
  clean = tt;
}
Derived-IsBuilt (attrs d nil p) = Derived-IsBuilt d
Derived-IsBuilt {opts} (attrs {h} d (attr k v more) p) =
    new-IsBuilt opts h _ (Derived-IsBuilt d)
      (λ e. (λ _. (rw e (Clean-rename (attr k v more) p), tt), λ n. cc))
Derived-IsBuilt {opts} (group {h} d name r) = elim (Bool-cases (is_empty name)) [
  | inl e ↦ rw e (Derived-IsBuilt d)
  | inr e ↦
      rw e (new-IsBuilt opts h _ (Derived-IsBuilt d) (λ _. (λ n. ground (arith, n, e), λ _. r)))
]
