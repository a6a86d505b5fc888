-- ===== src/Tests/Values.antt =====
-- The arithmetic and the opcodes at concrete values.
use crisp.Base.{ℕ, ◌+◌, ◌*◌, ◌/◌, ◌^◌, ◌≡◌, refl, arith, ok, some, u32, sub32}
use crisp.Base.Int.{◌+ℤ◌, ◌-ℤ◌}
use crisp.Vm.Opcode.{opcode_of, code, select, opcodes, memory, Memory}
use crisp.Vm.Alu.{int32, word, mulhu, div, rem32}
use crisp.Vm.Alu.Signed.{signed-eq-unsigned}
use crisp.Vm.Alu.Multiply.{middle, mulhu-carry}
use crisp.Vm.Alu.Divide.{Divides, div_rem-Divides}

signed-eq-unsigned_example :
    (word (int32 0xFFFFFFFF +ℤ int32 2) ≡ u32 (0xFFFFFFFF + 2))
    × (word (int32 0xFFFFFFFF -ℤ int32 2) ≡ sub32 0xFFFFFFFF 2)
signed-eq-unsigned_example = signed-eq-unsigned 0xFFFFFFFF 2 (omega arith) (omega arith)

mulhu-carry_example :
    mulhu 0xFFFFFFFF 0xFFFFFFFF + 2 ^ 16 * (middle 0xFFFFFFFF 0xFFFFFFFF / 2 ^ 32)
    ≡ 0xFFFFFFFF * 0xFFFFFFFF / 2 ^ 32
mulhu-carry_example = mulhu-carry 0xFFFFFFFF 0xFFFFFFFF (omega arith) (omega arith)

-- The largest operands lose the carry: the high word would be 0xFFFFFFFE.
mulhu_lost_carry : mulhu 0xFFFFFFFF 0xFFFFFFFF ≡ 0xFFFEFFFE
unfolding mulhu
mulhu_lost_carry = refl

-- -7 divided by 2
div_rem-Divides_example :
    (q : ℕ) × (r : ℕ) × (div 0xFFFFFFF9 2 ≡ ok q)
    × (rem32 0xFFFFFFF9 2 ≡ ok r)
    × Divides (int32 0xFFFFFFF9) (int32 2) (int32 q) (int32 r)
div_rem-Divides_example =
    div_rem-Divides 0xFFFFFFF9 2 (omega arith) (omega arith) (omega arith) (omega arith)

lw_code : opcode_of 0x50 ≡ some (memory Memory.lw)
unfolding opcode_of select opcodes code
lw_code = refl
