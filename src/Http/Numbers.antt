-- ===== src/Http/Numbers.antt =====
-- `strconv.ParseUint` with base 10 and 64 bits, and `strconv.Atoi`, on the characters of a text.
use beetle_shield_backend.Prelude.{
  ℕ, ◌+◌, ◌-◌, ◌*◌, ◌^◌, Bool, true, false, ◌&&◌, String, Option, none, some, List, [], ◌∷◌, ◌==◌,
  ltb, leb, if◌then◌else◌,
}
use beetle_shield_backend.Prelude.Int.{ℤ, pos, negsuc}
use beetle_shield_backend.Prelude.Text.{codes}

-- The number that is returned beside an error is used where the program drops the error: 0 for
-- bad syntax, the largest number for one out of range.
pub data Parsed : Type 0 where
  number : ℕ → Parsed
  bad_syntax : Parsed
  out_of_range : Parsed

abbrev pub is_digit : ℕ → Bool
is_digit c = leb b'0' c && leb c b'9'

-- The first fault that is met decides.
abbrev pub scan : ℕ → List ℕ → Parsed
scan n [] = number n
scan n (c ∷ cs) =
    let next = n * 10 + (c - b'0') in
    let rest = scan next cs in
    if is_digit c then (if ltb next (2 ^ 64) then rest else out_of_range) else bad_syntax

abbrev pub parse_codes : List ℕ → Parsed
parse_codes [] = bad_syntax
parse_codes (c ∷ cs) = scan 0 (c ∷ cs)

unfoldable pub parse_uint : String → Parsed
parse_uint s = parse_codes (codes s)

-- `id, err := ParseUint(s)`
abbrev pub parsed_or_none : Parsed → Option ℕ
parsed_or_none (number n) = some n
parsed_or_none bad_syntax = none
parsed_or_none out_of_range = none

-- `id, _ := ParseUint(s)`
abbrev pub parsed_value : Parsed → ℕ
parsed_value (number n) = n
parsed_value bad_syntax = 0
parsed_value out_of_range = 2 ^ 64 - 1

abbrev pub positive_int : ℕ → ℤ
positive_int n = if ltb n (2 ^ 63) then pos n else pos (2 ^ 63 - 1)

abbrev pub negative_int : ℕ → ℤ
negative_int n =
    if n == 0 then pos 0 else if leb n (2 ^ 63) then negsuc (n - 1) else negsuc (2 ^ 63 - 1)

abbrev pub atoi_codes : List ℕ → Parsed × Bool
atoi_codes [] = (bad_syntax, true)
atoi_codes (c ∷ cs) =
    if c == b'-'
    then (parse_codes cs, false)
    else if c == b'+'
    then (parse_codes cs, true)
    else (parse_codes (c ∷ cs), true)

abbrev pub signed : Parsed × Bool → ℤ
signed (p, true) = positive_int (parsed_value p)
signed (p, false) = negative_int (parsed_value p)

-- `n, _ := Atoi(s)`
unfoldable pub atoi_value : String → ℤ
atoi_value s = signed (atoi_codes (codes s))

abbrev fits : Parsed × Bool → Bool
fits (number n, true) = ltb n (2 ^ 63)
fits (number n, false) = leb n (2 ^ 63)
fits _ = false

-- `n, err := Atoi(s)`
unfoldable pub atoi : String → Option ℤ
unfolding atoi_value
atoi s = if fits (atoi_codes (codes s)) then some (atoi_value s) else none
