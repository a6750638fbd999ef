-- ===== src/Domain/DisplayName.antt =====
-- internal/relation/domain/display_name.go.
pub mod Normal
use tolo_tenant_management.Prelude.{ℕ, String, ltb, if◌then◌else◌}
use tolo_tenant_management.Text.{trim_space, rune_count, is_empty}
use tolo_tenant_management.Failure.{
  Result, ok, err, sentinel, display_name_required, display_name_too_long,
}

abbrev pub max_display_name_length : ℕ
max_display_name_length = 64

pub record DisplayName : Type 0 where
  pub value : String

-- the tests that a trimmed text must pass
abbrev pub judge : String → Result DisplayName
judge trimmed =
    if is_empty trimmed
    then err (sentinel display_name_required)
    else if ltb max_display_name_length (rune_count trimmed)
    then err (sentinel display_name_too_long)
    else ok (record { value = trimmed })

unfoldable pub parse : String → Result DisplayName
unfolding trim_space
parse s = judge (trim_space s)
