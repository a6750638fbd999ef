-- ===== src/Domain/Subdomain.antt =====
-- internal/tenant/domain/subdomain.go. The regular expressions are written in continuation style:
-- a pattern takes what must match behind it.
use tolo_tenant_management.Prelude.{
  ℕ, zero, suc, String, Bool, true, false, not, ◌&&◌, ◌||◌, List, [], ◌∷◌, leb, ◌==◌, any,
  if◌then◌else◌,
}
use tolo_tenant_management.Text.{codes}
use tolo_tenant_management.Failure.{Result, ok, err, sentinel, invalid_subdomain}

abbrev pub Pattern : Type 0
Pattern = (List ℕ → Bool) → List ℕ → Bool

-- `$`
abbrev pub at_end : List ℕ → Bool
at_end [] = true
at_end (c ∷ cs) = false

-- one rune of a class
abbrev pub one : (ℕ → Bool) → Pattern
one p k [] = false
one p k (c ∷ cs) = p c && k cs

-- `p{0,n}`
pub up_to : ℕ → (ℕ → Bool) → Pattern
up_to zero p k s = k s
up_to (suc n) p k [] = k []
up_to (suc n) p k (c ∷ cs) = k (c ∷ cs) || (p c && up_to n p k cs)

-- `p{n}`
unfoldable pub exactly : ℕ → (ℕ → Bool) → Pattern
exactly zero p k s = k s
exactly (suc n) p k [] = false
exactly (suc n) p k (c ∷ cs) = p c && exactly n p k cs

-- `p*`
pub many : (ℕ → Bool) → Pattern
many p k [] = k []
many p k (c ∷ cs) = k (c ∷ cs) || (p c && many p k cs)

-- `(…)?`
abbrev pub optional : Pattern → Pattern
optional q k s = q k s || k s

-- a literal text
abbrev pub literal : List ℕ → Pattern
literal [] k s = k s
literal (l ∷ ls) k [] = false
literal (l ∷ ls) k (c ∷ cs) = c == l && literal ls k cs

abbrev pub is_lower : ℕ → Bool
is_lower c = leb b'a' c && leb c b'z'

abbrev pub is_digit : ℕ → Bool
is_digit c = leb b'0' c && leb c b'9'

-- `[a-z0-9]`, `[a-z0-9-]`, `[0-9a-f]`, and `.`
abbrev pub is_alnum : ℕ → Bool
is_alnum c = is_lower c || is_digit c

abbrev pub is_label : ℕ → Bool
is_label c = is_lower c || is_digit c || c == b'-'

abbrev pub is_hex : ℕ → Bool
is_hex c = is_digit c || (leb b'a' c && leb c b'f')

abbrev pub is_any : ℕ → Bool
is_any c = not (c == 10)

-- `^[a-z0-9]([a-z0-9-]{0,61}[a-z0-9])?$`
unfoldable pub subdomain_pattern : List ℕ → Bool
unfolding up_to
subdomain_pattern = one is_alnum (optional (λ k. up_to 61 is_label (one is_alnum k)) at_end)

-- `^[0-9a-f]{16}$`
unfoldable pub public_id_pattern : List ℕ → Bool
unfolding exactly
public_id_pattern = exactly 16 is_hex at_end

-- `^..--`
abbrev pub idna_pattern : List ℕ → Bool
idna_pattern = one is_any (one is_any (literal (b'-' ∷ b'-' ∷ []) (λ rest. true)))

-- `^(www|api|admin|auth)$`
abbrev pub reserved_pattern : List ℕ → Bool
reserved_pattern s =
    literal (codes "www") at_end s
    || literal (codes "api") at_end s
    || literal (codes "admin") at_end s
    || literal (codes "auth") at_end s

-- `^s[0-9]+$`
unfoldable pub preview_pattern : List ℕ → Bool
unfolding many
preview_pattern = literal (b's' ∷ []) (one is_digit (many is_digit at_end))

abbrev pub rejected_patterns : List (List ℕ → Bool)
rejected_patterns = public_id_pattern ∷ idna_pattern ∷ reserved_pattern ∷ preview_pattern ∷ []

pub record Subdomain : Type 0 where
  pub value : String

-- The zero value of the type: no subdomain.
abbrev pub no_subdomain : Subdomain
no_subdomain = record { value = "" }

unfoldable pub parse : String → Result Subdomain
unfolding subdomain_pattern public_id_pattern preview_pattern
parse s =
    if not (subdomain_pattern (codes s))
    then err (sentinel invalid_subdomain)
    else if any (λ pattern_. pattern_ (codes s)) rejected_patterns
    then err (sentinel invalid_subdomain)
    else ok (record { value = s })
