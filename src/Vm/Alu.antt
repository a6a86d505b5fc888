-- ===== src/Vm/Alu.antt =====
-- The values that the ALU instructions of `c32_vm_step` compute, as functions of 32-bit patterns.
-- Signed arithmetic is done on the integers that the patterns stand for and cast back, which is
-- the two's complement result of the hosts; the quotient that does not fit traps there, `fault`.
pub mod Signed
pub mod Multiply
pub mod Divide
use crisp.Base.{
  ℕ, ◌+◌, ◌-◌, ◌*◌, ◌/◌, ◌%◌, ◌^◌, bit_and, Bool, not, ◌&&◌, ltb, ◌==◌, if◌then◌else◌, Outcome, ok,
  fault, u32, sub32,
}
use crisp.Base.Int.{ℤ, pos, negsuc, pos_part, neg_part, sub_ℕ, ltb_ℤ}

-- `(int32_t)w`, `(int16_t)h` and `(int8_t)b`
abbrev pub int32 : ℕ → ℤ
int32 w = if ltb w (2 ^ 31) then pos w else negsuc (2 ^ 32 - 1 - w)

abbrev pub int16 : ℕ → ℤ
int16 h = if ltb h (2 ^ 15) then pos h else negsuc (2 ^ 16 - 1 - h)

abbrev pub int8 : ℕ → ℤ
int8 b = if ltb b (2 ^ 7) then pos b else negsuc (2 ^ 8 - 1 - b)

-- `(uint32_t)z`
abbrev pub word : ℤ → ℕ
word (pos n) = n % 2 ^ 32
word (negsuc n) = 2 ^ 32 - 1 - n % 2 ^ 32

abbrev pub is_negative : ℤ → Bool
is_negative z = ltb_ℤ z (pos 0)

-- `/` and `%` of C round towards zero; the remainder has the sign of the dividend.
abbrev pub magnitude : ℤ → ℕ
magnitude z = pos_part z + neg_part z

unfoldable pub quot : ℤ → ℤ → ℤ
quot a b =
    let q = magnitude a / magnitude b in
    if is_negative a
    then (if is_negative b then pos q else sub_ℕ 0 q)
    else (if is_negative b then sub_ℕ 0 q else pos q)

unfoldable pub rem : ℤ → ℤ → ℤ
rem a b = let r = magnitude a % magnitude b in if is_negative a then sub_ℕ 0 r else pos r

-- `~x`
abbrev pub complement : ℕ → ℕ
complement x = 2 ^ 32 - 1 - x

-- `z >> k` of a signed number rounds down, as the hosts' compilers define it.
abbrev pub shift_right : ℤ → ℕ → ℤ
shift_right (pos n) k = pos (n / 2 ^ k)
shift_right (negsuc n) k = negsuc (n / 2 ^ k)

unfoldable pub sll : ℕ → ℕ → ℕ
sll x amount = u32 (x * 2 ^ bit_and amount 0x1F)

unfoldable pub srl : ℕ → ℕ → ℕ
srl x amount = x / 2 ^ bit_and amount 0x1F

unfoldable pub sra : ℕ → ℕ → ℕ
sra x amount = word (shift_right (int32 x) (bit_and amount 0x1F))

unfoldable pub slt : ℕ → ℕ → ℕ
slt a b = if ltb_ℤ (int32 a) (int32 b) then 1 else 0

unfoldable pub sltu : ℕ → ℕ → ℕ
sltu a b = if ltb a b then 1 else 0

-- OP_MULHU, every intermediate a `uint32_t`
unfoldable pub mulhu : ℕ → ℕ → ℕ
mulhu a b =
    let a_lo = bit_and a 0xFFFF in
    let a_hi = a / 2 ^ 16 in
    let b_lo = bit_and b 0xFFFF in
    let b_hi = b / 2 ^ 16 in
    let p0 = u32 (a_lo * b_lo) in
    let p1 = u32 (a_lo * b_hi) in
    let p2 = u32 (a_hi * b_lo) in
    let p3 = u32 (a_hi * b_hi) in
    let mid = u32 (u32 (p1 + p2) + p0 / 2 ^ 16) in u32 (p3 + mid / 2 ^ 16)

-- OP_MULH: the same product, then `-= b` and `-= a` for negative operands
unfoldable pub mulh : ℕ → ℕ → ℕ
mulh a b =
    let result_hi = mulhu a b in
    let adjusted = if is_negative (int32 a) then sub32 result_hi b else result_hi in
    if is_negative (int32 b) then sub32 adjusted a else adjusted

-- OP_DIV and OP_REM. INT_MIN / -1 does not fit an `int32_t`.
unfoldable pub div : ℕ → ℕ → Outcome ℕ
div a b =
    if not (b == 0)
    then (if (a == 2 ^ 31) && (b == 2 ^ 32 - 1)
        then fault
        else ok (word (quot (int32 a) (int32 b))))
    else ok 0

unfoldable pub divu : ℕ → ℕ → ℕ
divu a b = if not (b == 0) then a / b else 0

unfoldable pub rem32 : ℕ → ℕ → Outcome ℕ
rem32 a b =
    if not (b == 0)
    then (if (a == 2 ^ 31) && (b == 2 ^ 32 - 1) then fault else ok (word (rem (int32 a) (int32 b))))
    else ok 0

unfoldable pub remu : ℕ → ℕ → ℕ
remu a b = if not (b == 0) then a % b else 0
