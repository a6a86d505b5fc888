-- ===== src/Base/Bits.antt =====
-- `&` and `|` of machine words as arithmetic. The native operations have no laws at variables, so
-- these come from the recursion on binary digits that the operations stand for.
use Prim.Native.Nat.{
  ℕ, zero, suc, ◌+◌, ◌-◌, ◌*◌, ◌/◌, ◌%◌, ◌^◌, ◌≤◌, ◌<◌, min, max, bit_and, bit_or, bit_xor, digits,
  differ, bit_and-bitwise, bit_or-bitwise, bit_xor-bitwise,
}
use mathlib.Core.Path.{◌≡◌, refl, ap}
use native.Mathlib.Nat.{pow-suc, one-le-pow, mod-lt, div-add-mod'}
use native.Mathlib.Omega.{arith}

module _ (z : ℕ → ℕ) (f : ℕ → ℕ → ℕ) where
  -- Any fuel that covers the first number gives the same digits.
  more_fuel : (k l a b : ℕ) → a ≤ k → a ≤ l → digits z f k a b ≡ digits z f l a b
  more_fuel zero zero a b p q = refl
  more_fuel zero (suc l) zero b p q = refl
  more_fuel zero (suc l) (suc a) b p q = absurd (omega arith)
  more_fuel (suc k) zero zero b p q = refl
  more_fuel (suc k) zero (suc a) b p q = absurd (omega arith)
  more_fuel (suc k) (suc l) zero b p q = refl
  more_fuel (suc k) (suc l) (suc a) b p q =
      omega (arith, more_fuel k l (suc a / 2) (b / 2) (omega arith) (omega arith))

-- The lowest digit, and the rest.
pub and_halves : (a b : ℕ) → bit_and a b ≡ bit_and (a / 2) (b / 2) * 2 + min (a % 2) (b % 2)
and_halves zero b = omega (arith, bit_and-bitwise 0 b, bit_and-bitwise 0 (b / 2))
and_halves (suc a) b = omega (
  arith,
  bit_and-bitwise (suc a) b,
  bit_and-bitwise (suc a / 2) (b / 2),
  more_fuel (λ _. 0) min a (suc a / 2) (suc a / 2) (b / 2) (omega arith) (omega arith),
)

pub or_halves : (a b : ℕ) → bit_or a b ≡ bit_or (a / 2) (b / 2) * 2 + max (a % 2) (b % 2)
or_halves zero b = omega (arith, bit_or-bitwise 0 b, bit_or-bitwise 0 (b / 2))
or_halves (suc a) b = omega (
  arith,
  bit_or-bitwise (suc a) b,
  bit_or-bitwise (suc a / 2) (b / 2),
  more_fuel (λ y. y) max a (suc a / 2) (suc a / 2) (b / 2) (omega arith) (omega arith),
)

pub zero-and : (b : ℕ) → bit_and 0 b ≡ 0
zero-and b = bit_and-bitwise 0 b

pub zero-or : (b : ℕ) → bit_or 0 b ≡ b
zero-or b = bit_or-bitwise 0 b

and_zero_up_to : (n a : ℕ) → a ≤ n → bit_and a 0 ≡ 0
and_zero_up_to n zero h = refl
and_zero_up_to zero (suc a) h = absurd (omega arith)
and_zero_up_to (suc n) (suc a) h =
    omega (arith, and_halves (suc a) 0, and_zero_up_to n (suc a / 2) (omega arith))

pub and-zero : (a : ℕ) → bit_and a 0 ≡ 0
and-zero a = and_zero_up_to a a (omega arith)

or_zero_up_to : (n a : ℕ) → a ≤ n → bit_or a 0 ≡ a
or_zero_up_to n zero h = refl
or_zero_up_to zero (suc a) h = absurd (omega arith)
or_zero_up_to (suc n) (suc a) h =
    omega (arith, or_halves (suc a) 0, or_zero_up_to n (suc a / 2) (omega arith))

pub or-zero : (a : ℕ) → bit_or a 0 ≡ a
or-zero a = or_zero_up_to a a (omega arith)

double : (a k : ℕ) → a * 2 ^ suc k ≡ 2 * (a * 2 ^ k)
double a k = omega (arith, ap (λ (t : ℕ). a * t) (pow-suc 2 k))

-- Both operations act on the digits above position `k` and on those below it.
pub and_split :
    (k a b c d : ℕ)
    → b < 2 ^ k
    → d < 2 ^ k
    → bit_and (a * 2 ^ k + b) (c * 2 ^ k + d) ≡ bit_and a c * 2 ^ k + bit_and b d
and_split zero a b c d p q =
    let left : a * 2 ^ 0 + b ≡ a = omega arith in
    let right : c * 2 ^ 0 + d ≡ c = omega arith in
    let b_zero : b ≡ 0 = omega arith in
    let d_zero : d ≡ 0 = omega arith in rw (left, right, b_zero, d_zero) (omega arith)
and_split (suc k) a b c d p q = ground (
  arith,
  and_halves (a * 2 ^ suc k + b) (c * 2 ^ suc k + d),
  and_halves b d,
  double a k,
  double c k,
  double (bit_and a c) k,
  pow-suc 2 k,
  and_split k a (b / 2) c (d / 2) (omega (arith, pow-suc 2 k)) (omega (arith, pow-suc 2 k)),
)

pub or_split :
    (k a b c d : ℕ)
    → b < 2 ^ k
    → d < 2 ^ k
    → bit_or (a * 2 ^ k + b) (c * 2 ^ k + d) ≡ bit_or a c * 2 ^ k + bit_or b d
or_split zero a b c d p q =
    let left : a * 2 ^ 0 + b ≡ a = omega arith in
    let right : c * 2 ^ 0 + d ≡ c = omega arith in
    let b_zero : b ≡ 0 = omega arith in
    let d_zero : d ≡ 0 = omega arith in rw (left, right, b_zero, d_zero) (omega arith)
or_split (suc k) a b c d p q = ground (
  arith,
  or_halves (a * 2 ^ suc k + b) (c * 2 ^ suc k + d),
  or_halves b d,
  double a k,
  double c k,
  double (bit_or a c) k,
  pow-suc 2 k,
  or_split k a (b / 2) c (d / 2) (omega (arith, pow-suc 2 k)) (omega (arith, pow-suc 2 k)),
)

-- A mask of `k` ones keeps a number of `k` digits.
pub and_ones : (k b : ℕ) → b < 2 ^ k → bit_and b (2 ^ k - 1) ≡ b
and_ones zero b p = omega (arith, and-zero b)
and_ones (suc k) b p = ground (
  arith,
  and_halves b (2 ^ suc k - 1),
  pow-suc 2 k,
  one-le-pow k 2,
  and_ones k (b / 2) (omega (arith, pow-suc 2 k)),
)

-- A mask of `k` ones is the remainder by `2 ^ k`.
pub and_mask : (k a : ℕ) → bit_and a (2 ^ k - 1) ≡ a % 2 ^ k
and_mask k a = ground (
  arith,
  one-le-pow k 2,
  mod-lt a {m = 2 ^ k},
  div-add-mod' a (2 ^ k),
  and_split k (a / 2 ^ k) (a % 2 ^ k) 0 (2 ^ k - 1),
  and-zero (a / 2 ^ k),
  and_ones k (a % 2 ^ k),
)

-- A mask of `w` ones from position `k` up keeps the field that stands there.
pub and_field : (k w a : ℕ) → bit_and a ((2 ^ w - 1) * 2 ^ k) ≡ a / 2 ^ k % 2 ^ w * 2 ^ k
and_field k w a = ground (
  arith,
  one-le-pow k 2,
  mod-lt a {m = 2 ^ k},
  div-add-mod' a (2 ^ k),
  and_split k (a / 2 ^ k) (a % 2 ^ k) (2 ^ w - 1) 0,
  and-zero (a % 2 ^ k),
  and_mask w (a / 2 ^ k),
)

-- `|` of a number of `k` digits with one whose low `k` digits are clear is their sum.
pub or_fields_swapped : (k a b : ℕ) → b < 2 ^ k → bit_or b (a * 2 ^ k) ≡ a * 2 ^ k + b
or_fields_swapped k a b h = ground (arith, one-le-pow k 2, or_split k 0 b a 0, zero-or a, or-zero b)

pub or_fields : (k a b : ℕ) → b < 2 ^ k → bit_or (a * 2 ^ k) b ≡ a * 2 ^ k + b
or_fields k a b h = ground (arith, one-le-pow k 2, or_split k a 0 0 b, or-zero a, zero-or b)

-- Results stay within the digits of the operands.
pub and_lt : (k a b : ℕ) → a < 2 ^ k → bit_and a b < 2 ^ k
and_lt zero zero b h = omega (arith, zero-and b)
and_lt zero (suc a) b h = absurd (omega arith)
and_lt (suc k) a b h =
    omega
      (arith, pow-suc 2 k, and_halves a b, and_lt k (a / 2) (b / 2) (omega (arith, pow-suc 2 k)))

pub or_lt : (k a b : ℕ) → a < 2 ^ k → b < 2 ^ k → bit_or a b < 2 ^ k
or_lt zero zero b h g = omega (arith, zero-or b)
or_lt zero (suc a) b h g = absurd (omega arith)
or_lt (suc k) a b h g = omega (
  arith,
  pow-suc 2 k,
  or_halves a b,
  or_lt k (a / 2) (b / 2) (omega (arith, pow-suc 2 k)) (omega (arith, pow-suc 2 k)),
)

xor_halves : (a b : ℕ) → bit_xor a b ≡ bit_xor (a / 2) (b / 2) * 2 + differ (a % 2) (b % 2)
xor_halves zero b = omega (arith, bit_xor-bitwise 0 b, bit_xor-bitwise 0 (b / 2))
xor_halves (suc a) b = omega (
  arith,
  bit_xor-bitwise (suc a) b,
  bit_xor-bitwise (suc a / 2) (b / 2),
  more_fuel (λ y. y) differ a (suc a / 2) (suc a / 2) (b / 2) (omega arith) (omega arith),
)

differ_lt : (x y : ℕ) → x < 2 → y < 2 → differ x y < 2
differ_lt zero zero h g = omega arith
differ_lt zero (suc zero) h g = omega arith
differ_lt zero (suc (suc y)) h g = absurd (omega arith)
differ_lt (suc zero) zero h g = omega arith
differ_lt (suc zero) (suc zero) h g = omega arith
differ_lt (suc zero) (suc (suc y)) h g = absurd (omega arith)
differ_lt (suc (suc x)) y h g = absurd (omega arith)

pub xor_lt : (k a b : ℕ) → a < 2 ^ k → b < 2 ^ k → bit_xor a b < 2 ^ k
xor_lt zero zero b h g = omega (arith, bit_xor-bitwise 0 b)
xor_lt zero (suc a) b h g = absurd (omega arith)
xor_lt (suc k) a b h g = omega (
  arith,
  pow-suc 2 k,
  xor_halves a b,
  differ_lt (a % 2) (b % 2) (omega arith) (omega arith),
  xor_lt k (a / 2) (b / 2) (omega (arith, pow-suc 2 k)) (omega (arith, pow-suc 2 k)),
)
