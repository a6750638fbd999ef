-- ===== src/Logging/Reserved.antt =====
-- The keys that Cloud Logging reads, and the renaming around them: internal/logging/handler.go.
pub mod Renamed
use tolo_tenant_management.Prelude.{
  ℕ, String, Bool, true, false, ◌&&◌, List, [], ◌∷◌, ◌==◌, any, str_eq, ℤ, if◌then◌else◌,
}
use tolo_tenant_management.Text
use tolo_tenant_management.Text.{codes, decimal}
use tolo_tenant_management.Logging.Level.{severity_of}
use tolo_tenant_management.Logging.Attr.{
  Source, Value, text, moment, level, source, null, flag, other, group, Attrs, nil, attr, any_key,
}

-- `strings.HasPrefix`
abbrev pub starts_with : List ℕ → List ℕ → Bool
starts_with s [] = true
starts_with [] (p ∷ ps) = false
starts_with (c ∷ cs) (p ∷ ps) = c == p && starts_with cs ps

abbrev pub cloud_logging_prefix : String
cloud_logging_prefix = "logging.googleapis.com/"

abbrev pub key_source_location : String
key_source_location = "logging.googleapis.com/sourceLocation"

abbrev pub key_trace : String
key_trace = "logging.googleapis.com/trace"

abbrev pub key_span_id : String
key_span_id = "logging.googleapis.com/spanId"

abbrev pub key_trace_sampled : String
key_trace_sampled = "logging.googleapis.com/trace_sampled"

abbrev pub reserved_prefix : String
reserved_prefix = "attr_"

abbrev pub reserved_keys : List String
reserved_keys = "time" ∷ "severity" ∷ "message" ∷ "level" ∷ "msg" ∷ "source" ∷ []

unfoldable pub is_reserved : String → Bool
is_reserved key =
    if starts_with (codes key) (codes cloud_logging_prefix)
    then true
    else any (λ k. str_eq key k) reserved_keys

abbrev pub rename_reserved : String → String
rename_reserved key = if is_reserved key then Text.append reserved_prefix key else key

abbrev pub rename_each : Attrs → Attrs
rename_each nil = nil
rename_each (attr k v more) = attr (rename_reserved k) v (rename_each more)

unfoldable pub rename_reserved_attrs : Attrs → Attrs
unfolding is_reserved
rename_reserved_attrs as_ = if any_key is_reserved as_ then rename_each as_ else as_

-- How log/slog and time write what the program hands them: a time in UTC by RFC 3339, and the text
-- of a value that is no text.
pub record Formats : Type 0 where
  pub utc_nano : ℕ → String
  pub shown : Value → String

-- `Value.String`
abbrev pub value_string : Formats → Value → String
value_string f (text s) = s
value_string f (flag b) = f.shown (flag b)
value_string f (moment t) = f.shown (moment t)
value_string f (level l) = f.shown (level l)
value_string f (source s) = f.shown (source s)
value_string f null = f.shown null
value_string f (other s) = f.shown (other s)
value_string f (group as_) = f.shown (group as_)

abbrev pub replace_time : Formats → String → Value → String × Value
replace_time f k (moment t) = ("time", text (f.utc_nano t))
replace_time f k v = (k, v)

abbrev pub replace_level : String → Value → String × Value
replace_level k (level l) = ("severity", text (severity_of l))
replace_level k v = (k, v)

abbrev pub replace_source : String → Value → String × Value
replace_source k (source s) = (
  key_source_location,
  group (
      attr "file" (text s.file)
        (attr "line" (text (decimal s.line)) (attr "function" (text s.function) nil))),
)
replace_source k v = (k, v)

abbrev pub replace_top : Formats → String → Value → String × Value
replace_top f k v =
    if str_eq k "time"
    then replace_time f k v
    else if str_eq k "level"
    then replace_level k v
    else if str_eq k "msg"
    then ("message", text (value_string f v))
    else if str_eq k "source"
    then replace_source k v
    else (k, v)

unfoldable pub replace_attr : Formats → List String → String → Value → String × Value
unfolding severity_of
replace_attr f [] k v = replace_top f k v
replace_attr f (g ∷ gs) k v = (k, v)
