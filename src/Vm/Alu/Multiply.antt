-- ===== src/Vm/Alu/Multiply.antt =====
-- MULHU and MULH against the exact 64-bit product.
use crisp.Base.{ℕ, ◌+◌, ◌*◌, ◌/◌, ◌%◌, ◌^◌, ◌≤◌, ◌<◌, ◌≡◌, ◌↔◌, arith}
use crisp.Base.Bits.{and_mask}
use crisp.Vm.Alu.{mulhu}

-- The sum of the middle products and the carry from the low one, before it is cut to 32 bits.
abbrev pub middle : ℕ → ℕ → ℕ
middle a b =
    a % 2 ^ 16 * (b / 2 ^ 16) + a / 2 ^ 16 * (b % 2 ^ 16) + a % 2 ^ 16 * (b % 2 ^ 16) / 2 ^ 16

-- The high word of a product of two numbers that are split into halves.
product_halves :
    (h l k m : ℕ)
    → (h * 2 ^ 16 + l) * (k * 2 ^ 16 + m) / 2 ^ 32
      ≡ h * k + (l * k + h * m + l * m / 2 ^ 16) / 2 ^ 16
product_halves h l k m = omega arith

product_high : (a b : ℕ) → a * b / 2 ^ 32 ≡ a / 2 ^ 16 * (b / 2 ^ 16) + middle a b / 2 ^ 16
product_high a b =
    rw (← halves a, ← halves b) at
      (product_halves (a / 2 ^ 16) (a % 2 ^ 16) (b / 2 ^ 16) (b % 2 ^ 16))
  where
    halves : (n : ℕ) → n ≡ n / 2 ^ 16 * 2 ^ 16 + n % 2 ^ 16
    halves n = omega arith

halves_le : (x y : ℕ) → x < 2 ^ 16 → y < 2 ^ 16 → x * y ≤ 0xFFFE0001
halves_le x y hx hy = grind arith

-- What MULHU computes of two words falls short of the high word of the exact product by 2 ^ 16 for
-- the carry out of the middle sum, which 32 bits do not hold.
pub mulhu-carry :
    (a b : ℕ)
    → a < 2 ^ 32
    → b < 2 ^ 32
    → mulhu a b + 2 ^ 16 * (middle a b / 2 ^ 32) ≡ a * b / 2 ^ 32
unfolding mulhu
mulhu-carry a b ha hb =
    rw (and_mask 16 a, and_mask 16 b)
      (omega (
        arith,
        product_high a b,
        halves_le (a % 2 ^ 16) (b % 2 ^ 16) (omega arith) (omega arith),
        halves_le (a % 2 ^ 16) (b / 2 ^ 16) (omega arith) (omega arith),
        halves_le (a / 2 ^ 16) (b % 2 ^ 16) (omega arith) (omega arith),
        halves_le (a / 2 ^ 16) (b / 2 ^ 16) (omega arith) (omega arith),
      ))

-- MULHU of two words is the high word of the product exactly when the middle sum has no carry.
pub mulhu-exact_iff :
    (a b : ℕ) → a < 2 ^ 32 → b < 2 ^ 32 → (mulhu a b ≡ a * b / 2 ^ 32) ↔ (middle a b < 2 ^ 32)
mulhu-exact_iff a b ha hb =
    let carry = mulhu-carry a b ha hb in ((λ e. omega arith), (λ h. omega arith))
