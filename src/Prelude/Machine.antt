-- ===== src/Prelude/Machine.antt =====
-- C conversions between `int`, `size_t` and integers, on a 64-bit target.
use model_lib.Prelude.{ℕ, ◌-◌, ◌%◌, ◌^◌, ◌<◌, ◌≡◌, ltb, if◌then◌else◌, arith}
use model_lib.Prelude.Int.{ℤ, pos, negsuc}

-- The `int` with a bit pattern below 2 ^ 32.
abbrev pub signed32 : ℕ → ℤ
signed32 w = if ltb w (2 ^ 31) then pos w else negsuc (2 ^ 32 - w - 1)

-- The conversion to `int` keeps the low 32 bits.
unfoldable pub to_int : ℤ → ℤ
to_int (pos n) = signed32 (n % 2 ^ 32)
to_int (negsuc n) = signed32 (2 ^ 32 - 1 - n % 2 ^ 32)

-- The conversion to `size_t`.
unfoldable pub to_size : ℤ → ℕ
to_size (pos n) = n % 2 ^ 64
to_size (negsuc n) = 2 ^ 64 - 1 - n % 2 ^ 64

pub to_int-pos : (n : ℕ) → n < 2 ^ 31 → to_int (pos n) ≡ pos n
unfolding to_int
to_int-pos n h = ground arith

pub to_size-pos : (n : ℕ) → n < 2 ^ 64 → to_size (pos n) ≡ n
unfolding to_size
to_size-pos n h = omega arith
