-- ===== src/Vm/Alu/Divide.antt =====
-- DIV and REM.
use native.Mathlib.Nat.{div-add-mod', mod-lt, mod-le, div-le_self, div-lt_self}
use crisp.Base.{ℕ, ◌-◌, ◌^◌, ◌≤◌, ◌<◌, ◌≡◌, ◌≢◌, arith, ok, fault}
use crisp.Base.Int.{ℤ, pos, negsuc, pos_part, neg_part, ◌+ℤ◌, ◌*ℤ◌}
use crisp.Vm.Alu.{int32, word, magnitude, quot, rem, div, rem32}

-- Division with remainder, rounding towards zero.
pub quot-rem :
    (a b : ℤ)
    → 0 < magnitude b
    → (quot a b *ℤ b +ℤ rem a b ≡ a) × (magnitude (rem a b) < magnitude b)
unfolding quot rem ◌*ℤ◌ ◌+ℤ◌
quot-rem a b h =
    ground
      (arith, div-add-mod' (magnitude a) (magnitude b), mod-lt (magnitude a) {m = magnitude b} h)

-- The integers that an `int32_t` holds.
abbrev IsInt32 : ℤ → Type 0
IsInt32 z = (pos_part z < 2 ^ 31) × (neg_part z ≤ 2 ^ 31)

int32-word : (z : ℤ) → IsInt32 z → int32 (word z) ≡ z
int32-word (pos n) h = ground arith
int32-word (negsuc n) h = ground arith

int32-IsInt32 : (a : ℕ) → a < 2 ^ 32 → IsInt32 (int32 a)
int32-IsInt32 a h = ground arith

rem-IsInt32 : (x y : ℤ) → IsInt32 x → 0 < magnitude y → IsInt32 (rem x y)
unfolding rem
rem-IsInt32 x y hx h = ground (arith, mod-le (magnitude x) (magnitude y))

quot-IsInt32 :
    (x y : ℤ)
    → IsInt32 x
    → 0 < magnitude y
    → ((neg_part x ≡ 2 ^ 31) × (neg_part y ≡ 1) → ⊥)
    → IsInt32 (quot x y)
unfolding quot
quot-IsInt32 x y hx h fits = ground (
  arith,
  div-le_self (magnitude x) (magnitude y),
  div-lt_self {n = magnitude x} {k = magnitude y},
)

-- `q` and `r` are quotient and remainder of `a` by `b`, rounding towards zero: the remainder is
-- smaller than the divisor and has not the sign opposite to the dividend's.
pub record Divides (a b q r : ℤ) : Type 0 where
  pub law : q *ℤ b +ℤ r ≡ a
  pub small : magnitude r < magnitude b
  pub same_sign : (neg_part a ≡ 0 → neg_part r ≡ 0) × (0 < neg_part a → pos_part r ≡ 0)

quot-rem-Divides : (a b : ℤ) → 0 < magnitude b → Divides a b (quot a b) (rem a b)
quot-rem-Divides a b h = record {
  law = (quot-rem a b h).0;
  small = (quot-rem a b h).1;
  same_sign = (unfold rem in ground arith, unfold rem in ground arith);
}

module _ (a b : ℕ) (ha : a < 2 ^ 32) (hb : b < 2 ^ 32) where
  -- Of two words, for a divisor other than 0, and but for INT_MIN / -1, DIV and REM give the
  -- quotient and the remainder of the signed values, rounding towards zero.
  pub div_rem-Divides :
      b ≢ 0
      → ¬ ((a ≡ 2 ^ 31) × (b ≡ 2 ^ 32 - 1))
      → (q : ℕ) × (r : ℕ) × (div a b ≡ ok q)
        × (rem32 a b ≡ ok r)
        × Divides (int32 a) (int32 b) (int32 q) (int32 r)
  unfolding div rem32
  div_rem-Divides nz fits =
      let pos_b : 0 < magnitude (int32 b) = ground arith in
      let q = quot (int32 a) (int32 b) in
      let r = rem (int32 a) (int32 b) in
      let hq : IsInt32 q = quot-IsInt32 _ _ (int32-IsInt32 a ha) pos_b (ground arith) in
      let hr : IsInt32 r = rem-IsInt32 _ _ (int32-IsInt32 a ha) pos_b in
      (
        word q,
        word r,
        ground arith,
        ground arith,
        rw (int32-word q hq, int32-word r hr) (quot-rem-Divides _ _ pos_b),
      )

  -- A zero divisor gives 0, and INT_MIN / -1 is undefined behaviour.
  pub div_rem-special :
      (b ≡ 0 → (div a b ≡ ok 0) × (rem32 a b ≡ ok 0))
      × ((a ≡ 2 ^ 31) × (b ≡ 2 ^ 32 - 1) → (div a b ≡ fault) × (rem32 a b ≡ fault))
  unfolding div rem32
  div_rem-special = (λ e. (ground arith, ground arith), λ e. (ground arith, ground arith))
