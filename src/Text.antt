-- ===== src/Text.antt =====
-- The functions of Go's `strings`, `unicode` and `unicode/utf8` that the program calls, over valid
-- UTF-8: a text is the list of its runes.
pub mod Trim
use Prim.Native.Char.{Char, code}
use tolo_tenant_management.Prelude.{
  ℕ, zero, suc, ◌/◌, ◌%◌, String, Bool, false, true, ◌&&◌, ◌||◌, List, [], ◌∷◌, ltb, leb, ◌==◌,
  if◌then◌else◌, ◌≡◌, ◌≢◌, ap, inl, inr, str_eq, eq_iff, Bool-cases,
}

-- `unicode.IsSpace`
unfoldable pub is_space : ℕ → Bool
is_space c =
    (leb 9 c && leb c 13)
    || c == 0x20
    || c == 0x85
    || c == 0xa0
    || c == 0x1680
    || (leb 0x2000 c && leb c 0x200a)
    || c == 0x2028
    || c == 0x2029
    || c == 0x202f
    || c == 0x205f
    || c == 0x3000

unfoldable pub trim_left : String → String
unfolding is_space
trim_left String.[] = ""
trim_left (String.◌∷◌ c s) =
    let rest = trim_left s in if is_space (code c) then rest else String.◌∷◌ c s

-- a rune put before a text whose spaces at the end are gone
abbrev keep : Char → String → String
keep c String.[] = if is_space (code c) then "" else String.◌∷◌ c ""
keep c (String.◌∷◌ d s) = String.◌∷◌ c (String.◌∷◌ d s)

unfoldable pub trim_right : String → String
unfolding is_space
trim_right String.[] = ""
trim_right (String.◌∷◌ c s) = keep c (trim_right s)

-- `strings.TrimSpace`
unfoldable pub trim_space : String → String
unfolding trim_left trim_right
trim_space s = trim_right (trim_left s)

-- `utf8.RuneCountInString`
abbrev pub rune_count : String → ℕ
rune_count String.[] = 0
rune_count (String.◌∷◌ c s) = suc (rune_count s)

abbrev pub is_empty : String → Bool
is_empty String.[] = true
is_empty (String.◌∷◌ c s) = false

-- The runes of a text as numbers.
abbrev pub codes : String → List ℕ
codes String.[] = []
codes (String.◌∷◌ c s) = code c ∷ codes s

abbrev digit : ℕ → String
digit n =
    if n == 0
    then "0"
    else if n == 1
    then "1"
    else if n == 2
    then "2"
    else if n == 3
    then "3"
    else if n == 4
    then "4"
    else if n == 5
    then "5"
    else if n == 6
    then "6"
    else if n == 7
    then "7"
    else if n == 8
    then "8"
    else "9"

abbrev pub append : String → String → String
append String.[] t = t
append (String.◌∷◌ c s) t = String.◌∷◌ c (append s t)

decimal_fuel : ℕ → ℕ → String
decimal_fuel zero n = ""
decimal_fuel (suc f) n =
    let more = append (decimal_fuel f (n / 10)) (digit (n % 10)) in
    if ltb n 10 then digit n else more

-- `strconv.FormatInt(n, 10)` at n ≥ 0; n + 1 rounds are enough, since each divides n by ten.
unfoldable pub decimal : ℕ → String
unfolding decimal_fuel
decimal n = decimal_fuel (suc n) n

-- what a stringer writes for a value with no name: `Type(n)`
unfoldable pub numbered : String → ℕ → String
unfolding decimal
numbered type_name n = append type_name (append "(" (append (decimal n) ")"))

-- the first rune, if there is one
abbrev pub head_code : String → ℕ
head_code String.[] = 0
head_code (String.◌∷◌ c s) = code c

-- texts that begin differently are not equal
pub head-differs : (a b : String) → head_code a ≢ head_code b → str_eq a b ≡ false
head-differs a b h = elim (Bool-cases (str_eq a b)) [
  | inl e ↦ elim (h (ap head_code ((eq_iff a b).0 e))) [ ]
  | inr e ↦ e
]
