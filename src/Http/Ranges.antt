-- ===== src/Http/Ranges.antt =====
-- The numbers that a request may bring stay within Go's 64 bits.
use beetle_shield_backend.Prelude.{
  ℕ, ◌+◌, ◌-◌, ◌*◌, ◌^◌, ◌<◌, ◌≡◌, refl, ◌⊎◌, inl, inr, Bool-cases, Bool, true, false, String, List,
  [], ◌∷◌, ◌==◌, ltb, leb, if◌then◌else◌, arith,
}
use beetle_shield_backend.Prelude.Int.{ℤ, pos, negsuc}
use beetle_shield_backend.Prelude.Text.{codes}
use beetle_shield_backend.Http.Numbers.{
  Parsed, atoi_codes, is_digit, signed, atoi_value, bad_syntax, negative_int, out_of_range,
  parse_codes, parse_uint, parsed_value, positive_int, scan,
}

-- A value of Go's `int`.
abbrev pub IsInt64 : ℤ → Type 0
IsInt64 (pos n) = n < 2 ^ 63
IsInt64 (negsuc n) = n < 2 ^ 63

positive_int-IsInt64 : (n : ℕ) → IsInt64 (positive_int n)
positive_int-IsInt64 n = split (Bool-cases (ltb n (2 ^ 63)))
  where
    split : (ltb n (2 ^ 63) ≡ true) ⊎ (ltb n (2 ^ 63) ≡ false) → IsInt64 (positive_int n)
    split (inl e) = rw e (ground arith)
    split (inr e) = rw e (omega arith)

negative_int-IsInt64 : (n : ℕ) → IsInt64 (negative_int n)
negative_int-IsInt64 n = split (Bool-cases (n == 0)) (Bool-cases (leb n (2 ^ 63)))
  where
    split :
        ((n == 0) ≡ true) ⊎ ((n == 0) ≡ false)
        → (leb n (2 ^ 63) ≡ true) ⊎ (leb n (2 ^ 63) ≡ false)
        → IsInt64 (negative_int n)
    split (inl z) l = rw z (omega arith)
    split (inr z) (inl e) = rw (z, e) (ground (arith, z, e))
    split (inr z) (inr e) = rw (z, e) (omega arith)

signed-IsInt64 : (p : Parsed × Bool) → IsInt64 (signed p)
signed-IsInt64 (p, true) = positive_int-IsInt64 (parsed_value p)
signed-IsInt64 (p, false) = negative_int-IsInt64 (parsed_value p)

scan-bound : (n : ℕ) (cs : List ℕ) → n < 2 ^ 64 → parsed_value (scan n cs) < 2 ^ 64
scan-bound n [] h = h
scan-bound n (c ∷ cs) h =
    split (scan-bound (n * 10 + (c - b'0')) cs) (is_digit c) (ltb (n * 10 + (c - b'0')) (2 ^ 64))
      refl
  where
    split :
        (n * 10 + (c - b'0') < 2 ^ 64 → parsed_value (scan (n * 10 + (c - b'0')) cs) < 2 ^ 64)
        → (d b : Bool) → ltb (n * 10 + (c - b'0')) (2 ^ 64) ≡ b
        → parsed_value
            (if d then (if b then scan (n * 10 + (c - b'0')) cs else out_of_range) else bad_syntax)
          < 2 ^ 64
    split rest true true e = rest (ground arith)
    split rest true false e = omega arith
    split rest false b e = omega arith

parse_codes-bound : (cs : List ℕ) → parsed_value (parse_codes cs) < 2 ^ 64
parse_codes-bound [] = omega arith
parse_codes-bound (c ∷ cs) = scan-bound 0 (c ∷ cs) (omega arith)

-- Whatever text a request brings for an id, a page, a limit or a status, the number that the
-- handlers read from it is one of Go's `uint64`, or of its `int`.
pub parsed_ranges :
    (text : String) → (parsed_value (parse_uint text) < 2 ^ 64) × IsInt64 (atoi_value text)
unfolding parse_uint atoi_value
parsed_ranges text = (parse_codes-bound (codes text), signed-IsInt64 (atoi_codes (codes text)))
