-- ===== src/Vm/Execute/Control.antt =====
-- The branch and jump cases of `c32_vm_step`. The PC has been advanced already.
use crisp.Base.{ℕ, ◌+◌, Bool, not, ◌==◌, if◌then◌else◌, Outcome, ok, ◌>>=◌, u32}
use crisp.Base.Int.{ℤ, pos, ltb_ℤ}
use crisp.Vm.State.{Vm, get_reg, set_reg}
use crisp.Vm.Instruction.{Instruction}
use crisp.Vm.Opcode.{Branch, Jump}
use crisp.Vm.Alu.{int32, is_negative}

unfoldable pub branch_if : Bool → Instruction → Vm → Outcome Vm
branch_if taken i vm = ok (if taken then record vm { pc = u32 (vm.pc + i.immediate) } else vm)

unfoldable pub compare_zero : (ℤ → Bool) → Instruction → Vm → Outcome Vm
compare_zero test i vm = do a ← get_reg vm i.rs; branch_if (test (int32 a)) i vm

unfoldable pub compare_regs : (ℕ → ℕ → Bool) → Instruction → Vm → Outcome Vm
compare_regs test i vm = do a ← get_reg vm i.rs; b ← get_reg vm i.rt; branch_if (test a b) i vm

unfoldable pub exec_branch : Branch → Instruction → Vm → Outcome Vm
exec_branch Branch.beq = compare_regs (λ a b. a == b)
exec_branch Branch.bne = compare_regs (λ a b. not (a == b))
exec_branch Branch.blez = compare_zero (λ a. not (ltb_ℤ (pos 0) a))
exec_branch Branch.bgtz = compare_zero (λ a. ltb_ℤ (pos 0) a)
exec_branch Branch.bltz = compare_zero is_negative
exec_branch Branch.bgez = compare_zero (λ a. not (is_negative a))

-- JALR writes `rd` before it reads `rs`.
unfoldable pub exec_jump : Jump → Instruction → Vm → Outcome Vm
exec_jump Jump.j i vm = ok (record vm { pc = i.immediate })
exec_jump Jump.jal i vm = do vm' ← set_reg vm 31 vm.pc; ok (record vm' { pc = i.immediate })
exec_jump Jump.jr i vm = do a ← get_reg vm i.rs; ok (record vm { pc = a })
exec_jump Jump.jalr i vm = do
  vm' ← set_reg vm i.rd vm.pc
  a ← get_reg vm' i.rs
  ok (record vm' { pc = a })
