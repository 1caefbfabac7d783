-- ===== src/Prelude/Int.antt =====
-- Go's `int` where a value may be negative.
use Prim.Native.Nat.{ℕ, suc, ◌-◌, ◌*◌, ◌^◌, ◌%◌}
use mathlib.Core.Bool.{Bool, true, false}
use beetle_shield_backend.Prelude.Tests.{ltb, if◌then◌else◌}

-- `negsuc n` is -(n + 1).
pub data ℤ : Type 0 where
  pos : ℕ → ℤ
  negsuc : ℕ → ℤ

-- `x < n` for a bound that is not negative.
abbrev pub ltb_bound : ℤ → ℕ → Bool
ltb_bound (pos a) n = ltb a n
ltb_bound (negsuc a) n = true

-- `n < x`
abbrev pub gtb_bound : ℤ → ℕ → Bool
gtb_bound (pos a) n = ltb n a
gtb_bound (negsuc a) n = false

-- The 64 bits of an `int64`, with their sign.
abbrev pub signed64 : ℕ → ℤ
signed64 bits = if ltb bits (2 ^ 63) then pos bits else negsuc (2 ^ 64 - bits - 1)

-- The product of an `int64` with a constant, which wraps around.
abbrev pub times64 : ℤ → ℕ → ℤ
times64 (pos a) n = signed64 (a * n % 2 ^ 64)
times64 (negsuc a) n = signed64 ((2 ^ 64 - suc a * n % 2 ^ 64) % 2 ^ 64)
