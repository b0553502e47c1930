-- ===== src/Base/Word.antt =====
-- Machine words: the C conversions between signed and unsigned integers.
-- A 64-bit word is its bit pattern, a number below 2 ^ 64.
use rt_tests.Base.{ℕ, ◌+◌, ◌-◌, ◌%◌, ◌^◌, ◌<◌, ◌≡◌, arith, ltb, if◌then◌else◌}
use rt_tests.Base.Int.{ℤ, pos, negsuc, ◌≤ℤ◌}

-- The low 32 bits, and the `int` that they stand for.
abbrev pub low32 : ℤ → ℕ
low32 (pos n) = n % 2 ^ 32
low32 (negsuc n) = 2 ^ 32 - 1 - n % 2 ^ 32

abbrev pub signed32 : ℕ → ℤ
signed32 w = if ltb w (2 ^ 31) then pos w else negsuc (2 ^ 32 - w - 1)

-- Conversion to `int`, by wrapping round.
unfoldable pub to_int : ℤ → ℤ
to_int z = signed32 (low32 z)

-- Conversion to `uint64_t` or `unsigned long`.
unfoldable pub to_u64 : ℤ → ℕ
to_u64 (pos n) = n % 2 ^ 64
to_u64 (negsuc n) = 2 ^ 64 - 1 - n % 2 ^ 64

-- The `long` that a pattern stands for.
unfoldable pub to_long : ℕ → ℤ
to_long w = if ltb w (2 ^ 63) then pos w else negsuc (2 ^ 64 - w - 1)

-- 64-bit addition.
abbrev pub add64 : ℕ → ℕ → ℕ
add64 a b = (a + b) % 2 ^ 64

-- 64-bit subtraction.
abbrev pub sub64 : ℕ → ℕ → ℕ
sub64 a b = (a + 2 ^ 64 - b) % 2 ^ 64

pub to_int_small : (z : ℤ) → negsuc (2 ^ 31 - 1) ≤ℤ z → z ≤ℤ pos (2 ^ 31 - 1) → to_int z ≡ z
unfolding to_int
to_int_small z lo hi = ground arith

pub to_u64-lt : (z : ℤ) → to_u64 z < 2 ^ 64
unfolding to_u64
to_u64-lt (pos n) = omega arith
to_u64-lt (negsuc n) = omega arith

-- The two conversions undo one another on a `long`.
pub to_long-to_u64 :
    (z : ℤ) → negsuc (2 ^ 63 - 1) ≤ℤ z → z ≤ℤ pos (2 ^ 63 - 1) → to_long (to_u64 z) ≡ z
unfolding to_u64 to_long
to_long-to_u64 z lo hi = ground arith
