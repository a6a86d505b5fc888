-- ===== src/Vm/Invariant/Registers.antt =====
-- Well-formed states and the register and branch cases of `c32_vm_step`.
use crisp.Base.{ℕ, ◌==◌, not, arith, Bool, true, false, Outcome}
use crisp.Base.Bits.{and_lt, or_lt, xor_lt}
use crisp.Base.Int.{ℤ}
use crisp.Vm.State.{Vm}
use crisp.Vm.Opcode.{Arithmetic, Logical, Shift, Comparison, Branch}
use crisp.Vm.Instruction.{Instruction}
use crisp.Vm.Execute.Registers.{
  reg_reg, reg_div, reg_imm, shift_imm, exec_arithmetic, exec_logical, exec_shift, exec_comparison,
}
use crisp.Vm.Execute.Control.{branch_if, compare_regs, compare_zero, exec_branch}
use crisp.Vm.Invariant.{
  IsWord, Fits, Post, ends, Post-bind, Post-if, get_reg-IsWord, set_reg-Fits, with_pc-Fits,
}
use crisp.Vm.Invariant.Values.{
  word-IsWord, sll-IsWord, srl-IsWord, sra-IsWord, slt-IsWord, sltu-IsWord, mulhu-IsWord,
  mulh-IsWord, div-IsWord, divu-IsWord, rem32-IsWord, remu-IsWord,
}

module _ (i : Instruction) (imm : IsWord i.immediate) {vm : Vm} (f : Fits vm) where
  reg_reg-Fits :
      {op : ℕ → ℕ → Outcome ℕ}
      → ((a b : ℕ) → IsWord a → IsWord b → Post IsWord (op a b))
      → Post Fits (reg_reg op i vm)
  unfolding reg_reg
  reg_reg-Fits h = Post-bind (get_reg-IsWord f i.rs) λ a ha.
      Post-bind (get_reg-IsWord f i.rt)
        λ b hb. Post-bind (h a b ha hb) λ v hv. set_reg-Fits f i.rd v hv

  reg_div-Fits :
      {op : ℕ → ℕ → Outcome ℕ}
      → ((a b : ℕ) → IsWord a → IsWord b → Post IsWord (op a b))
      → Post Fits (reg_div op i vm)
  unfolding reg_div
  reg_div-Fits h = Post-bind (get_reg-IsWord f i.rt) λ b hb.
      Post-bind (Post-if (not (b == 0)) (λ _. get_reg-IsWord f i.rs) (λ _. ends (omega arith)))
        λ a ha. Post-bind (h a b ha hb) λ v hv. set_reg-Fits f i.rd v hv

  reg_imm-Fits :
      (op : ℕ → ℕ → ℕ)
      → ((a : ℕ) → IsWord a → IsWord (op a i.immediate))
      → Post Fits (reg_imm op i vm)
  unfolding reg_imm
  reg_imm-Fits op h = Post-bind (get_reg-IsWord f i.rs) λ a ha. set_reg-Fits f i.rt _ (h a ha)

  shift_imm-Fits :
      (op : ℕ → ℕ → ℕ)
      → ((a : ℕ) → IsWord a → IsWord (op a i.immediate))
      → Post Fits (shift_imm op i vm)
  unfolding shift_imm
  shift_imm-Fits op h = Post-bind (get_reg-IsWord f i.rt) λ a ha. set_reg-Fits f i.rd _ (h a ha)

  pub exec_arithmetic-Fits : (op : Arithmetic) → Post Fits (exec_arithmetic op i vm)
  unfolding exec_arithmetic
  exec_arithmetic-Fits Arithmetic.add = reg_reg-Fits λ a b _ _. ends (word-IsWord _)
  exec_arithmetic-Fits Arithmetic.addu = reg_reg-Fits λ a b _ _. ends (omega arith)
  exec_arithmetic-Fits Arithmetic.sub = reg_reg-Fits λ a b _ _. ends (word-IsWord _)
  exec_arithmetic-Fits Arithmetic.subu = reg_reg-Fits λ a b _ _. ends (omega arith)
  exec_arithmetic-Fits Arithmetic.addi = reg_imm-Fits _ λ a _. word-IsWord _
  exec_arithmetic-Fits Arithmetic.addiu = reg_imm-Fits _ λ a _. omega arith
  exec_arithmetic-Fits Arithmetic.mul = reg_reg-Fits λ a b _ _. ends (omega arith)
  exec_arithmetic-Fits Arithmetic.mulh = reg_reg-Fits λ a b _ _. ends (mulh-IsWord a b)
  exec_arithmetic-Fits Arithmetic.mulhu = reg_reg-Fits λ a b _ _. ends (mulhu-IsWord a b)
  exec_arithmetic-Fits Arithmetic.div = reg_div-Fits λ a b _ _. div-IsWord a b
  exec_arithmetic-Fits Arithmetic.divu = reg_div-Fits λ a b h _. ends (divu-IsWord a b h)
  exec_arithmetic-Fits Arithmetic.rem = reg_div-Fits λ a b _ _. rem32-IsWord a b
  exec_arithmetic-Fits Arithmetic.remu = reg_div-Fits λ a b h _. ends (remu-IsWord a b h)

  pub exec_logical-Fits : (op : Logical) → Post Fits (exec_logical op i vm)
  unfolding exec_logical
  exec_logical-Fits Logical.and = reg_reg-Fits λ a b h _. ends (and_lt 32 a b h)
  exec_logical-Fits Logical.or = reg_reg-Fits λ a b h g. ends (or_lt 32 a b h g)
  exec_logical-Fits Logical.xor = reg_reg-Fits λ a b h g. ends (xor_lt 32 a b h g)
  exec_logical-Fits Logical.nor = reg_reg-Fits λ a b _ _. ends (omega arith)
  exec_logical-Fits Logical.andi = reg_imm-Fits _ λ a h. and_lt 32 a _ h
  exec_logical-Fits Logical.ori = reg_imm-Fits _ λ a h. or_lt 32 a _ h imm
  exec_logical-Fits Logical.xori = reg_imm-Fits _ λ a h. xor_lt 32 a _ h imm
  exec_logical-Fits Logical.lui = set_reg-Fits f i.rt _ (omega arith)

  pub exec_shift-Fits : (op : Shift) → Post Fits (exec_shift op i vm)
  unfolding exec_shift
  exec_shift-Fits Shift.sll = shift_imm-Fits _ λ a _. sll-IsWord a _
  exec_shift-Fits Shift.srl = shift_imm-Fits _ λ a h. srl-IsWord a _ h
  exec_shift-Fits Shift.sra = shift_imm-Fits _ λ a _. sra-IsWord a _
  exec_shift-Fits Shift.sllv = reg_reg-Fits λ n x _ _. ends (sll-IsWord x n)
  exec_shift-Fits Shift.srlv = reg_reg-Fits λ n x _ h. ends (srl-IsWord x n h)
  exec_shift-Fits Shift.srav = reg_reg-Fits λ n x _ _. ends (sra-IsWord x n)

  pub exec_comparison-Fits : (op : Comparison) → Post Fits (exec_comparison op i vm)
  unfolding exec_comparison
  exec_comparison-Fits Comparison.slt = reg_reg-Fits λ a b _ _. ends (slt-IsWord a b)
  exec_comparison-Fits Comparison.sltu = reg_reg-Fits λ a b _ _. ends (sltu-IsWord a b)
  exec_comparison-Fits Comparison.slti = reg_imm-Fits _ λ a _. slt-IsWord a _
  exec_comparison-Fits Comparison.sltiu = reg_imm-Fits _ λ a _. sltu-IsWord a _

  branch_if-Fits : (taken : Bool) → Post Fits (branch_if taken i vm)
  unfolding branch_if
  branch_if-Fits true = ends (with_pc-Fits f _ (omega arith))
  branch_if-Fits false = ends f

  compare_regs-Fits : (test : ℕ → ℕ → Bool) → Post Fits (compare_regs test i vm)
  unfolding compare_regs
  compare_regs-Fits test =
      Post-bind (get_reg-IsWord f i.rs)
        λ a _. Post-bind (get_reg-IsWord f i.rt) λ b _. branch_if-Fits _

  compare_zero-Fits : (test : ℤ → Bool) → Post Fits (compare_zero test i vm)
  unfolding compare_zero
  compare_zero-Fits test = Post-bind (get_reg-IsWord f i.rs) λ a _. branch_if-Fits _

  pub exec_branch-Fits : (op : Branch) → Post Fits (exec_branch op i vm)
  unfolding exec_branch
  exec_branch-Fits Branch.beq = compare_regs-Fits _
  exec_branch-Fits Branch.bne = compare_regs-Fits _
  exec_branch-Fits Branch.blez = compare_zero-Fits _
  exec_branch-Fits Branch.bgtz = compare_zero-Fits _
  exec_branch-Fits Branch.bltz = compare_zero-Fits _
  exec_branch-Fits Branch.bgez = compare_zero-Fits _
