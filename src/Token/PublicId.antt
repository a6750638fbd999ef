-- ===== src/Token/PublicId.antt =====
-- The public IDs of internal/identifier/identifier.go and the subdomains of
-- internal/tenant/domain/subdomain.go share one namespace of host names.
use Prim.Native.Char.{code}
use tolo_tenant_management.Prelude.{
  ℕ, zero, suc, ◌/◌, ◌%◌, ◌<◌, ◌≡◌, refl, subst, String, Bool, true, false, not, inl, inr, List, [],
  ◌∷◌, arith, length, All, any, Bool-cases,
}
use tolo_tenant_management.Text.{codes, rune_count}
use tolo_tenant_management.Failure.{ok, err, sentinel, invalid_subdomain}
use tolo_tenant_management.Domain.Subdomain.{
  exactly, at_end, is_hex, public_id_pattern, subdomain_pattern, parse,
}
use tolo_tenant_management.Token.{Platform, letter, hex, hex_alphabet, new_public_id}

-- a letter of an alphabet has what all its letters have
letter-all :
    (p : ℕ → Bool) (s : String) (n : ℕ)
    → any (λ c. not (p c)) (codes s) ≡ false
    → n < rune_count s
    → p (code (letter s n)) ≡ true
letter-all p String.[] n h l = ground arith
letter-all p (String.◌∷◌ c s) zero h l = ground (arith, h)
letter-all p (String.◌∷◌ c s) (suc n) h l = letter-all p s n (ground (arith, h)) (omega (arith, l))

letter-is_hex : (n : ℕ) → n < 16 → is_hex (code (letter hex_alphabet n)) ≡ true
letter-is_hex n l = letter-all is_hex hex_alphabet n refl l

double : ℕ → ℕ
double zero = 0
double (suc n) = suc (suc (double n))

-- Each byte is two hexadecimal digits.
hex-exactly :
    (bytes : List ℕ)
    → All (λ b. b < 256) bytes
    → exactly (double (length bytes)) is_hex at_end (codes (hex bytes)) ≡ true
unfolding exactly hex double
hex-exactly [] h = refl
hex-exactly (b ∷ bs) h =
    let high = letter-is_hex (b / 16) (omega (arith, h.0)) in
    let low = letter-is_hex (b % 16) (omega arith) in rw (high, low) (hex-exactly bs h.1)

rejected :
    (s : String) → public_id_pattern (codes s) ≡ true → parse s ≡ err (sentinel invalid_subdomain)
unfolding parse
rejected s h = elim (Bool-cases (subdomain_pattern (codes s))) [
  | inl e ↦ rw (e, h, parse) refl
  | inr e ↦ rw (e, parse) refl
]

-- Whatever eight bytes the system's randomness answers, the public ID made of them is refused as a
-- subdomain.
pub public_id_no_subdomain :
    (p : Platform) (bytes : List ℕ) (id : String)
    → p.random8 ≡ ok bytes
    → length bytes ≡ 8
    → All (λ b. b < 256) bytes
    → new_public_id p ≡ ok id
    → parse id ≡ err (sentinel invalid_subdomain)
unfolding new_public_id public_id_pattern double
public_id_no_subdomain p bytes id random eight small made =
    let same : id ≡ hex bytes = ground (arith, rw random at made) in
    rejected id (
      rw same (
        subst (λ n. exactly (double n) is_hex at_end (codes (hex bytes)) ≡ true) eight
          (hex-exactly bytes small)))
