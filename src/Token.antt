-- ===== src/Token.antt =====
-- internal/identifier/identifier.go and internal/onetimetoken/token.go. What the operating system
-- and the UUID library answer, and SHA-256, are the platform's.
pub mod PublicId
use Prim.Native.Char.{Char}
use tolo_tenant_management.Prelude.{ℕ, zero, suc, ◌+◌, ◌*◌, ◌/◌, ◌%◌, String, Bool, List, [], ◌∷◌}
use tolo_tenant_management.Failure.{Result, ok, err, wrapped, ◌>>=◌}
use tolo_tenant_management.Domain.Tenant.{Hash}
use tolo_tenant_management.Store.Invitations.{same_hash}

-- What one call of a handler is answered: the clock, which a handler reads once at most, a
-- UUIDv7, and eight and thirty-two random bytes. `sha256` is the digest of a text's bytes.
pub record Platform : Type 0 where
  pub now : ℕ
  pub uuid : Result String
  pub random8 : Result (List ℕ)
  pub random32 : Result (List ℕ)
  pub sha256 : String → Hash

-- the character of an alphabet at a position
abbrev pub letter : String → ℕ → Char
letter String.[] n = "?"
letter (String.◌∷◌ c s) zero = c
letter (String.◌∷◌ c s) (suc n) = letter s n

abbrev pub hex_alphabet : String
hex_alphabet = "0123456789abcdef"

-- `hex.EncodeToString`
unfoldable pub hex : List ℕ → String
hex [] = ""
hex (b ∷ bs) =
    String.◌∷◌ (letter hex_alphabet (b / 16)) (String.◌∷◌ (letter hex_alphabet (b % 16)) (hex bs))

abbrev pub url_alphabet : String
url_alphabet = "ABCDEFGHIJKLMNOPQRSTUVWXYZabcdefghijklmnopqrstuvwxyz0123456789-_"

-- `base64.RawURLEncoding.EncodeToString`: three bytes are four letters, and nothing is padded.
unfoldable pub base64 : List ℕ → String
base64 [] = ""
base64 (a ∷ []) =
    String.◌∷◌ (letter url_alphabet (a / 4)) (String.◌∷◌ (letter url_alphabet (a % 4 * 16)) "")
base64 (a ∷ b ∷ []) = String.◌∷◌ (letter url_alphabet (a / 4)) (
    String.◌∷◌ (letter url_alphabet (a % 4 * 16 + b / 16))
      (String.◌∷◌ (letter url_alphabet (b % 16 * 4)) ""))
base64 (a ∷ b ∷ c ∷ more) = String.◌∷◌ (letter url_alphabet (a / 4)) (
    String.◌∷◌ (letter url_alphabet (a % 4 * 16 + b / 16)) (
      String.◌∷◌ (letter url_alphabet (b % 16 * 4 + c / 64))
        (String.◌∷◌ (letter url_alphabet (c % 64)) (base64 more))))

unfoldable pub new_uuid : Platform → Result String
new_uuid p = wrapped p.uuid

unfoldable pub new_public_id : Platform → Result String
unfolding hex
new_public_id p = wrapped p.random8 >>= λ id. ok (hex id)

unfoldable pub hash_of : Platform → String → Hash
hash_of p token = p.sha256 token

-- the plain text of a new token, and the hash to persist
unfoldable pub new_token : Platform → Result (String × Hash)
unfolding base64 hash_of
new_token p = wrapped p.random32 >>= λ raw. ok (base64 raw, hash_of p (base64 raw))

-- `subtle.ConstantTimeCompare` is equality of the bytes.
unfoldable pub matches : Platform → Hash → String → Bool
unfolding hash_of
matches p h token = same_hash h (hash_of p token)
