-- ===== src/Logging/Level/Severity.antt =====
-- The severity that a level is written with, read back as a level.
use tolo_tenant_management.Prelude.{
  ◌≡◌, refl, sym, ◌||◌, ◌⊎◌, inl, inr, String, ℤ, ◌≤ℤ◌, ◌<ℤ◌, ltb_ℤ, arith, Bool-cases,
  if◌then◌else◌,
}
use tolo_tenant_management.Failure.{ok}
use tolo_tenant_management.Logging.Level.{
  level_debug, level_info, level_warn, level_error, level_critical, named, parse_level, severity_of,
}

-- the level whose severity covers a level
abbrev floor : ℤ → ℤ
floor level =
    if ltb_ℤ level level_info
    then level_debug
    else if ltb_ℤ level level_warn
    then level_info
    else if ltb_ℤ level level_error
    then level_warn
    else if ltb_ℤ level level_critical
    then level_error
    else level_critical

parse-severity : (level : ℤ) → parse_level (severity_of level) ≡ ok (floor level)
unfolding parse_level severity_of
parse-severity level = elim (Bool-cases (ltb_ℤ level level_info)) [
  | inl a ↦ rw a refl
  | inr a ↦ elim (Bool-cases (ltb_ℤ level level_warn)) [
    | inl b ↦ rw (a, b) refl
    | inr b ↦ elim (Bool-cases (ltb_ℤ level level_error)) [
      | inl c ↦ rw (a, b, c) refl
      | inr c ↦ elim (Bool-cases (ltb_ℤ level level_critical)) [
        | inl e ↦ rw (a, b, c, e) refl
        | inr e ↦ rw (a, b, c, e) refl
      ]
    ]
  ]
]

floor-below : (level : ℤ) → (floor level ≤ℤ level) ⊎ (level <ℤ level_debug)
floor-below level = elim (Bool-cases (ltb_ℤ level level_debug)) [
  | inl e ↦ inr (ground (arith, e))
  | inr e ↦ inl (ground (arith, e))
]

-- a level that a configuration can name
abbrev pub IsNamed : ℤ → Type 0
IsNamed j = (s : String) × (parse_level s ≡ ok j)

module _ (P : ℤ → Type 0) (debug : P level_debug) (info : P level_info) (warn : P level_warn)
    (error : P level_error) (critical : P level_critical) where
  of_ok : {a j : ℤ} → P a → ok a ≡ ok j → P j
  of_ok {a} {j} h e = let same : a ≡ j = cc in rw (sym same) h

  -- a name stands for one of five levels
  parse_level-cases : (s : String) {j : ℤ} → parse_level s ≡ ok j → P j
  unfolding parse_level
  parse_level-cases s e = elim (Bool-cases (named "debug" s)) [
    | inl a ↦ of_ok debug (rw a at e)
    | inr a ↦ elim (Bool-cases (named "info" s)) [
      | inl b ↦ of_ok info (rw (a, b) at e)
      | inr b ↦ elim (Bool-cases (named "warn" s || named "warning" s)) [
        | inl c ↦ of_ok warn (rw (a, b, c) at e)
        | inr c ↦ elim (Bool-cases (named "error" s)) [
          | inl d ↦ of_ok error (rw (a, b, c, d) at e)
          | inr d ↦ elim (Bool-cases (named "critical" s)) [
            | inl f ↦ of_ok critical (rw (a, b, c, d, f) at e)
            | inr f ↦ ground (arith, rw (a, b, c, d, f) at e)
          ]
        ]
      ]
    ]
  ]

-- Below the floor or above the level lies every level that can be named.
named-floor : (j level : ℤ) → IsNamed j → j ≤ℤ level → j ≤ℤ floor level
named-floor j level (s, e) =
    parse_level-cases (λ k. k ≤ℤ level → k ≤ℤ floor level) (λ h. ground (arith, h))
      (λ h. ground (arith, h)) (λ h. ground (arith, h)) (λ h. ground (arith, h))
      (λ h. ground (arith, h)) s e

-- The severity that a level is written with is the name of a level again: the highest that can be
-- configured and does not lie above it, except that what lies below debug is written as debug.
pub severity_covers_level :
    (level : ℤ)
    → (k : ℤ) × (parse_level (severity_of level) ≡ ok k)
      × ((k ≤ℤ level) ⊎ (level <ℤ level_debug))
      × ((j : ℤ) → IsNamed j → j ≤ℤ level → j ≤ℤ k)
severity_covers_level level =
    (floor level, parse-severity level, floor-below level, λ j. named-floor j level)
