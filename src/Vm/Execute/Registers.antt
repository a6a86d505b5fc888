-- ===== src/Vm/Execute/Registers.antt =====
-- The cases of `c32_vm_step` that compute a value into a register.
use crisp.Base.{
  ℕ, ◌+◌, ◌*◌, ◌^◌, bit_and, bit_or, bit_xor, ◌==◌, not, if◌then◌else◌, Outcome, ok, ◌>>=◌, u32,
  sub32,
}
use crisp.Base.Int.{◌+ℤ◌, ◌-ℤ◌}
use crisp.Vm.State.{Vm, get_reg, set_reg}
use crisp.Vm.Instruction.{Instruction}
use crisp.Vm.Opcode.{Arithmetic, Logical, Shift, Comparison}
use crisp.Vm.Alu.{
  int32, word, complement, sll, srl, sra, slt, sltu, mulhu, mulh, div, divu, rem32, remu,
}

-- `regs[rd] = f(regs[rs], regs[rt])`
unfoldable pub reg_reg : (ℕ → ℕ → Outcome ℕ) → Instruction → Vm → Outcome Vm
reg_reg f i vm = do a ← get_reg vm i.rs; b ← get_reg vm i.rt; v ← f a b; set_reg vm i.rd v

-- The divisions: `regs[rs]` is read only if `regs[rt]` is not zero.
unfoldable pub reg_div : (ℕ → ℕ → Outcome ℕ) → Instruction → Vm → Outcome Vm
reg_div f i vm = do
  b ← get_reg vm i.rt
  a ← (if not (b == 0) then get_reg vm i.rs else ok 0)
  v ← f a b
  set_reg vm i.rd v

-- `regs[rt] = f(regs[rs], imm)`
unfoldable pub reg_imm : (ℕ → ℕ → ℕ) → Instruction → Vm → Outcome Vm
reg_imm f i vm = do a ← get_reg vm i.rs; set_reg vm i.rt (f a i.immediate)

-- `regs[rd] = f(regs[rt], imm)`
unfoldable pub shift_imm : (ℕ → ℕ → ℕ) → Instruction → Vm → Outcome Vm
shift_imm f i vm = do a ← get_reg vm i.rt; set_reg vm i.rd (f a i.immediate)

unfoldable pub exec_arithmetic : Arithmetic → Instruction → Vm → Outcome Vm
exec_arithmetic Arithmetic.add = reg_reg (λ a b. ok (word (int32 a +ℤ int32 b)))
exec_arithmetic Arithmetic.addu = reg_reg (λ a b. ok (u32 (a + b)))
exec_arithmetic Arithmetic.sub = reg_reg (λ a b. ok (word (int32 a -ℤ int32 b)))
exec_arithmetic Arithmetic.subu = reg_reg (λ a b. ok (sub32 a b))
exec_arithmetic Arithmetic.addi = reg_imm (λ a imm. word (int32 a +ℤ int32 imm))
exec_arithmetic Arithmetic.addiu = reg_imm (λ a imm. u32 (a + imm))
exec_arithmetic Arithmetic.mul = reg_reg (λ a b. ok (u32 (a * b)))
exec_arithmetic Arithmetic.mulh = reg_reg (λ a b. ok (mulh a b))
exec_arithmetic Arithmetic.mulhu = reg_reg (λ a b. ok (mulhu a b))
exec_arithmetic Arithmetic.div = reg_div div
exec_arithmetic Arithmetic.divu = reg_div (λ a b. ok (divu a b))
exec_arithmetic Arithmetic.rem = reg_div rem32
exec_arithmetic Arithmetic.remu = reg_div (λ a b. ok (remu a b))

unfoldable pub exec_logical : Logical → Instruction → Vm → Outcome Vm
exec_logical Logical.and = reg_reg (λ a b. ok (bit_and a b))
exec_logical Logical.or = reg_reg (λ a b. ok (bit_or a b))
exec_logical Logical.xor = reg_reg (λ a b. ok (bit_xor a b))
exec_logical Logical.nor = reg_reg (λ a b. ok (complement (bit_or a b)))
exec_logical Logical.andi = reg_imm bit_and
exec_logical Logical.ori = reg_imm bit_or
exec_logical Logical.xori = reg_imm bit_xor
exec_logical Logical.lui = λ i vm. set_reg vm i.rt (u32 (i.immediate * 2 ^ 16))

-- The variable shifts take the amount from `rs` and the operand from `rt`.
unfoldable pub exec_shift : Shift → Instruction → Vm → Outcome Vm
exec_shift Shift.sll = shift_imm sll
exec_shift Shift.srl = shift_imm srl
exec_shift Shift.sra = shift_imm sra
exec_shift Shift.sllv = reg_reg (λ amount x. ok (sll x amount))
exec_shift Shift.srlv = reg_reg (λ amount x. ok (srl x amount))
exec_shift Shift.srav = reg_reg (λ amount x. ok (sra x amount))

unfoldable pub exec_comparison : Comparison → Instruction → Vm → Outcome Vm
exec_comparison Comparison.slt = reg_reg (λ a b. ok (slt a b))
exec_comparison Comparison.sltu = reg_reg (λ a b. ok (sltu a b))
exec_comparison Comparison.slti = reg_imm slt
exec_comparison Comparison.sltiu = reg_imm sltu
