-- ===== src/Prelude/Int32.antt =====
-- C's `int` of 32 bits: conversions that wrap.
use mcuproxy.Prelude.{ℕ, ◌+◌, ◌-◌, ◌%◌, ◌^◌, ◌≤◌, ◌<◌, ◌≡◌, arith, ltb, if◌then◌else◌}
use mcuproxy.Prelude.Int.{ℤ, pos, negsuc, pos_part, neg_part}

-- `(int)` of a `size_t`.
unfoldable pub to_int : ℕ → ℤ
to_int n = if ltb n (2 ^ 31) then pos n else negsuc (2 ^ 32 - n - 1)

-- An unsigned 32-bit sum, converted to a signed integer.
unfoldable pub wrap_int : ℤ → ℤ
wrap_int z = to_int ((pos_part z + (2 ^ 32 - neg_part z % 2 ^ 32)) % 2 ^ 32)

pub to_int_small : (n : ℕ) → n < 2 ^ 31 → to_int n ≡ pos n
unfolding to_int
to_int_small n h = ground arith

-- A value that an `int` holds is kept.
pub wrap_int_fits : (z : ℤ) → pos_part z < 2 ^ 31 → neg_part z ≤ 2 ^ 31 → wrap_int z ≡ z
unfolding wrap_int to_int
wrap_int_fits z high low = ground arith
