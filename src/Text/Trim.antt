-- ===== src/Text/Trim.antt =====
-- What trimming leaves: nothing more to trim.
use Prim.Native.Char.{Char, code}
use tolo_tenant_management.Prelude.{String, ◌≡◌, refl, ap, ◌∙◌, false, inl, inr, Bool-cases}
use tolo_tenant_management.Text.{is_space, trim_left, trim_right, trim_space, keep}

-- the first rune is no space
abbrev StartsDark : String → Type 0
StartsDark String.[] = Unit
StartsDark (String.◌∷◌ c s) = is_space (code c) ≡ false

trim_left-StartsDark : (s : String) → StartsDark (trim_left s)
unfolding trim_left
trim_left-StartsDark String.[] = tt
trim_left-StartsDark (String.◌∷◌ c s) = elim (Bool-cases (is_space (code c))) [
  | inl e ↦ rw e (trim_left-StartsDark s)
  | inr e ↦ rw e e
]

trim_left-eq_self : (s : String) → StartsDark s → trim_left s ≡ s
unfolding trim_left
trim_left-eq_self String.[] h = refl
trim_left-eq_self (String.◌∷◌ c s) h = rw h

keep-dark : (c : Char) (s : String) → is_space (code c) ≡ false → keep c s ≡ String.◌∷◌ c s
keep-dark c String.[] h = rw h
keep-dark c (String.◌∷◌ d s) h = refl

trim_right-StartsDark : (s : String) → StartsDark s → StartsDark (trim_right s)
unfolding trim_right
trim_right-StartsDark String.[] h = tt
trim_right-StartsDark (String.◌∷◌ c s) h = rw (keep-dark c (trim_right s) h) h

trim_right-keep : (c : Char) (s : String) → trim_right s ≡ s → trim_right (keep c s) ≡ keep c s
unfolding trim_right
trim_right-keep c String.[] h = elim (Bool-cases (is_space (code c))) [
  | inl e ↦ rw e
  | inr e ↦ rw e (rw e)
]
trim_right-keep c (String.◌∷◌ d s) h = rw h

trim_right_idem : (s : String) → trim_right (trim_right s) ≡ trim_right s
unfolding trim_right
trim_right_idem String.[] = refl
trim_right_idem (String.◌∷◌ c s) = trim_right-keep c (trim_right s) (trim_right_idem s)

pub trim_space_idem : (s : String) → trim_space (trim_space s) ≡ trim_space s
unfolding trim_space
trim_space_idem s =
    ap trim_right (
      trim_left-eq_self (trim_right (trim_left s))
        (trim_right-StartsDark (trim_left s) (trim_left-StartsDark s)))
    ∙ trim_right_idem (trim_left s)
