-- ===== src/Prelude/Word.antt =====
-- Machine words: a mask of low bits is a remainder by a power of two.
use Prim.Native.Nat.{min, digits, bit_and, bit_and-bitwise}
use native.Mathlib.Nat.{pow-suc, one-le-pow}
use mcuproxy.Prelude.{ℕ, zero, suc, ◌+◌, ◌-◌, ◌*◌, ◌/◌, ◌%◌, ◌^◌, ◌≤◌, ◌<◌, ◌≡◌, arith, ◌∙◌}

-- `m` is a power of two, `2 * m` the next.
mod_double : (a m : ℕ) → 0 < m → a % (m * 2) ≡ a / 2 % m * 2 + a % 2
mod_double a m h = grind arith

masked : ℕ → ℕ → ℕ → ℕ
masked n a b = digits (λ _. 0) min n a b

masked_pow : (n k a : ℕ) → a ≤ n → masked n a (2 ^ k - 1) ≡ a % 2 ^ k
unfolding masked
masked_pow zero k zero h = omega arith
masked_pow zero k (suc a) h = absurd (omega arith)
masked_pow (suc n) k zero h = omega arith
masked_pow (suc n) zero (suc a) h = omega (arith, masked_pow n 0 (suc a / 2) (omega arith))
masked_pow (suc n) (suc k) (suc a) h =
    let power = pow-suc 2 k in
    let half : (2 ^ suc k - 1) / 2 ≡ 2 ^ k - 1 =
      omega (arith, power, one-le-pow k 2 (omega arith)) in
    let odd : (2 ^ suc k - 1) % 2 ≡ 1 = omega (arith, power, one-le-pow k 2 (omega arith)) in
    rw (half, odd, power)
      (omega (
        arith,
        masked_pow n k (suc a / 2) (omega arith),
        mod_double (suc a) (2 ^ k) (one-le-pow k 2 (omega arith)),
      ))

-- Masking with `2 ^ k - 1` keeps the `k` low bits.
pub bit_and_mask : (k a : ℕ) → bit_and a (2 ^ k - 1) ≡ a % 2 ^ k
unfolding masked
bit_and_mask k a = bit_and-bitwise a (2 ^ k - 1) ∙ masked_pow a k a (omega arith)
