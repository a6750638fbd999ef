-- ===== src/Domain/DisplayName/Normal.antt =====
-- A display name is in normal form once it is parsed.
use tolo_tenant_management.Prelude.{
  ◌≡◌, ap, ◌∙◌, ◌≤◌, ◌<◌, String, false, inl, inr, arith, ltb, Bool-cases,
}
use tolo_tenant_management.Text.{trim_space, rune_count, is_empty}
use tolo_tenant_management.Text.Trim.{trim_space_idem}
use tolo_tenant_management.Failure.{ok}
use tolo_tenant_management.Domain.DisplayName.{DisplayName, parse, judge, max_display_name_length}

nonempty-rune_count : (s : String) → is_empty s ≡ false → 0 < rune_count s
nonempty-rune_count String.[] h = ground arith
nonempty-rune_count (String.◌∷◌ c s) h = omega arith

-- what the two tests of a trimmed text say
judged :
    (trimmed : String) (n : DisplayName)
    → judge trimmed ≡ ok n
    → (n.value ≡ trimmed) × (is_empty trimmed ≡ false) × (rune_count trimmed ≤ 64)
judged trimmed n h = elim (Bool-cases (is_empty trimmed)) [
  | inl e ↦ ground (arith, h, e)
  | inr e ↦ elim (Bool-cases (ltb max_display_name_length (rune_count trimmed))) [
    | inl l ↦ ground (arith, h, e, l)
    | inr l ↦ (ground (arith, h, e, l), e, ground (arith, l))
  ]
]

-- A parsed display name is the text without its outer spaces, has between one and 64 characters, and
-- is parsed again to itself.
pub display_name_normal :
    (s : String) (n : DisplayName)
    → parse s ≡ ok n
    → (n.value ≡ trim_space s)
      × (0 < rune_count n.value)
      × (rune_count n.value ≤ 64)
      × (parse n.value ≡ ok n)
unfolding parse
display_name_normal s n h =
    let (same, some_rune, bounded) = judged (trim_space s) n h in
    (
      same,
      rw same (nonempty-rune_count (trim_space s) some_rune),
      rw same bounded,
      ap judge (ap trim_space same ∙ trim_space_idem s) ∙ h,
    )
