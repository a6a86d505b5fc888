-- ===== src/Vm/Alu/Signed.antt =====
-- The signed instructions against the integers that their operands stand for.
use crisp.Base.{ℕ, ◌+◌, ◌^◌, ◌<◌, ◌≡◌, arith, u32, sub32}
use crisp.Base.Int.{◌+ℤ◌, ◌-ℤ◌}
use crisp.Vm.Alu.{int32, word, slt, sltu}

-- The casts are inverse: a word survives the trip through the signed numbers.
pub word-int32 : (a : ℕ) → a < 2 ^ 32 → word (int32 a) ≡ a
word-int32 a h = ground arith

-- The signed sum and difference, cast back to a word, are the wrapping unsigned ones: ADD, SUB and
-- ADDI compute what ADDU, SUBU and ADDIU compute.
pub signed-eq-unsigned :
    (a b : ℕ)
    → a < 2 ^ 32
    → b < 2 ^ 32
    → (word (int32 a +ℤ int32 b) ≡ u32 (a + b)) × (word (int32 a -ℤ int32 b) ≡ sub32 a b)
unfolding ◌+ℤ◌ ◌-ℤ◌
signed-eq-unsigned a b ha hb = (ground arith, ground arith)

-- SLT orders words as SLTU orders them with the sign bit flipped.
pub slt-sltu :
    (a b : ℕ) → a < 2 ^ 32 → b < 2 ^ 32 → slt a b ≡ sltu (u32 (a + 2 ^ 31)) (u32 (b + 2 ^ 31))
unfolding slt sltu
slt-sltu a b ha hb = ground arith
