-- ===== src/Logging/Level.antt =====
-- ParseLevel and severityOf of internal/logging/handler.go. A level is an integer, as a `slog.Level`.
pub mod Severity
use tolo_tenant_management.Prelude.{
  ℕ, ◌+◌, String, Bool, true, false, ◌&&◌, ◌||◌, ℤ, pos, negsuc, ltb_ℤ, List, [], ◌∷◌, map, leb,
  ◌==◌, if◌then◌else◌,
}
use tolo_tenant_management.Text.{codes}
use tolo_tenant_management.Failure.{Result, ok, err, opaque}

abbrev pub level_debug : ℤ
level_debug = negsuc 3

abbrev pub level_info : ℤ
level_info = pos 0

abbrev pub level_warn : ℤ
level_warn = pos 4

abbrev pub level_error : ℤ
level_error = pos 8

abbrev pub level_critical : ℤ
level_critical = pos 12

-- `unicode.ToLower` of the runes whose lower case is ASCII: A to Z, İ and the Kelvin sign. Any other
-- rune stays here, as what it lowers to is in no name that a level is compared with.
unfoldable pub to_lower : ℕ → ℕ
to_lower c =
    if leb b'A' c && leb c b'Z'
    then c + 32
    else if c == 0x130
    then b'i'
    else if c == 0x212a
    then b'k'
    else c

abbrev pub same_runes : List ℕ → List ℕ → Bool
same_runes [] [] = true
same_runes (a ∷ as_) (b ∷ bs) = a == b && same_runes as_ bs
same_runes _ _ = false

-- a case of the switch over `strings.ToLower(s)`
abbrev pub named : String → String → Bool
named name s = same_runes (map to_lower (codes s)) (codes name)

-- The text of the error is not kept.
unfoldable pub parse_level : String → Result ℤ
unfolding to_lower
parse_level s =
    if named "debug" s
    then ok level_debug
    else if named "info" s
    then ok level_info
    else if named "warn" s || named "warning" s
    then ok level_warn
    else if named "error" s
    then ok level_error
    else if named "critical" s
    then ok level_critical
    else err (opaque "unknown log level")

unfoldable pub severity_of : ℤ → String
severity_of level =
    if ltb_ℤ level level_info
    then "DEBUG"
    else if ltb_ℤ level level_warn
    then "INFO"
    else if ltb_ℤ level level_error
    then "WARNING"
    else if ltb_ℤ level level_critical
    then "ERROR"
    else "CRITICAL"
