-- ===== src/Witnesses/Logging.antt =====
-- The theorems on the log handler, at a handler with an attribute and an open group.
use tolo_tenant_management.Prelude.{
  ◌≡◌, refl, ◌⊎◌, String, true, false, none, some, ℤ, pos, ◌≤ℤ◌, ◌<ℤ◌, Option,
}
use tolo_tenant_management.Failure.{ok}
use tolo_tenant_management.Logging.Level.{level_debug, parse_level, severity_of}
use tolo_tenant_management.Logging.Level.Severity.{IsNamed, severity_covers_level}
use tolo_tenant_management.Logging.Attr.{Attrs, text, attr, nil, count_key}
use tolo_tenant_management.Logging.Reserved.{Formats, is_reserved, key_trace}
use tolo_tenant_management.Logging.Json.{Record}
use tolo_tenant_management.Logging.Handler.{
  Options, Span, TraceHandler, new_handler, with_attrs, with_group, handle,
}
use tolo_tenant_management.Logging.Handler.Derived.{Derived}
use tolo_tenant_management.Logging.Handler.Entry.{own_fields, traced, reserved_keys_are_own}
use tolo_tenant_management.Logging.Handler.Groups.{noted, reserved_group_collides}

severity_covers_level_example :
    (k : ℤ) × (parse_level (severity_of (pos 5)) ≡ ok k)
    × ((k ≤ℤ pos 5) ⊎ (pos 5 <ℤ level_debug))
    × ((j : ℤ) → IsNamed j → j ≤ℤ pos 5 → j ≤ℤ k)
severity_covers_level_example = severity_covers_level (pos 5)

abbrev formats : Formats
formats = record { utc_nano = λ t. "1970-01-01T00:00:00Z"; shown = λ v. "?" }

abbrev options : Options
options = record { level = none; add_source = true; project_id = "tolo" }

abbrev own : Attrs
own = attr "severity" (text "fake") (attr "service" (text "tenants") nil)

abbrev handler : TraceHandler
handler = with_group (with_attrs (new_handler options) own) "request"

abbrev entry : Record
entry = record {
  time = some 5;
  level = pos 4;
  message = "slow";
  source = record { file = "main.go"; line = 7; function = "main" };
  attrs = attr "message" (text "fake") nil;
}

abbrev span : Option Span
span = some (record { trace_id = "4b"; span_id = "00"; sampled = true })

request-unreserved : is_reserved "request" ≡ false
unfolding is_reserved
request-unreserved = refl

handler-Derived : Derived options handler
handler-Derived =
    Derived.group (Derived.attrs Derived.made own ((λ h. cc), ((λ h. cc), tt))) "request"
      request-unreserved

reserved_keys_are_own_example :
    ((key : String)
      → is_reserved key ≡ true
      → count_key key (handle formats handler span entry)
        ≡ count_key key (own_fields formats options span entry))
    × (count_key "severity" (handle formats handler span entry) ≡ 1)
    × (count_key "message" (handle formats handler span entry) ≡ 1)
    × (count_key key_trace (handle formats handler span entry) ≡ traced span)
reserved_keys_are_own_example =
    reserved_keys_are_own formats options handler span entry handler-Derived ((λ h. cc), tt)

reserved_group_collides_example :
    count_key "severity" (
      handle formats
        (with_group (new_handler options) "severity")
        none
        (noted entry "tenant" "p2" nil))
    ≡ 2
reserved_group_collides_example = reserved_group_collides formats options entry "tenant" "p2" nil
