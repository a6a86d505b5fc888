-- ===== src/Vm/Safety/Registers.antt =====
-- The instructions without a memory access, free of undefined behaviour.
use crisp.Base.{
  ℕ, ◌+◌, ◌-◌, ◌^◌, ◌<◌, ◌≢◌, ◌⊎◌, ◌==◌, leb, not, ◌&&◌, Bool-cases, inl, inr, arith, Bool, some,
  Outcome, u32, returns,
}
use crisp.Base.Runs.{Returns-bind, Returns-if}
use crisp.Array.{update}
use crisp.Vm.State.{Vm, set_reg}
use crisp.Base.Int.{ℤ}
use crisp.Vm.Alu.{div, rem32}
use crisp.Vm.Invariant.{Fits}
use crisp.Vm.Instruction.{Instruction}
use crisp.Vm.Interrupts.Frame.{restore_regs-restored}
use crisp.Vm.Opcode.{
  arithmetic, interrupt, Arithmetic, Logical, Shift, Comparison, Branch, Jump, System, Interrupt,
  Privilege,
}
use crisp.Vm.Execute.Registers.{
  reg_reg, reg_div, reg_imm, shift_imm, exec_arithmetic, exec_logical, exec_shift, exec_comparison,
}
use crisp.Vm.Execute.Control.{branch_if, compare_zero, compare_regs, exec_branch, exec_jump}
use crisp.Vm.Execute.System.{
  exec_system, privileged, iret, exec_interrupt, set_ptbr, exec_privilege,
}
use crisp.Vm.Safety.{HasRegisters, IsBenign}
use crisp.Vm.Safety.Access.{Runs, get_reg-ok, set_reg-ok}

module _ (i : Instruction) (named : HasRegisters i) (vm : Vm) where
  pub set_reg-Runs : (k v : ℕ) → k < 32 → Runs (set_reg vm k v)
  set_reg-Runs k v h = rw (set_reg-ok vm k v h) (returns tt)

  reg_reg-Runs :
      (f : ℕ → ℕ → Outcome ℕ) → Runs (f (vm.regs i.rs) (vm.regs i.rt)) → Runs (reg_reg f i vm)
  unfolding reg_reg
  reg_reg-Runs f r =
      rw (get_reg-ok vm i.rs named.rs, get_reg-ok vm i.rt named.rt)
        (Returns-bind r λ v _. set_reg-Runs i.rd v named.rd)

  reg_div-Runs :
      (f : ℕ → ℕ → Outcome ℕ)
      → Runs (f (vm.regs i.rs) (vm.regs i.rt))
      → Runs (f 0 (vm.regs i.rt))
      → Runs (reg_div f i vm)
  unfolding reg_div
  reg_div-Runs f r z =
      rw (get_reg-ok vm i.rs named.rs, get_reg-ok vm i.rt named.rt)
        (elim (Bool-cases (vm.regs i.rt == 0)) [
          | inl e ↦ rw e (Returns-bind z λ v _. set_reg-Runs i.rd v named.rd)
          | inr e ↦ rw e (Returns-bind r λ v _. set_reg-Runs i.rd v named.rd)
        ])

  reg_imm-Runs : (f : ℕ → ℕ → ℕ) → Runs (reg_imm f i vm)
  unfolding reg_imm
  reg_imm-Runs f = rw (get_reg-ok vm i.rs named.rs) (set_reg-Runs i.rt _ named.rt)

  shift_imm-Runs : (f : ℕ → ℕ → ℕ) → Runs (shift_imm f i vm)
  unfolding shift_imm
  shift_imm-Runs f = rw (get_reg-ok vm i.rt named.rt) (set_reg-Runs i.rd _ named.rd)

  div-Runs : (a b : ℕ) → (a ≢ 2 ^ 31) ⊎ (b ≢ 2 ^ 32 - 1) → Runs (div a b)
  unfolding div
  div-Runs a b h =
      Returns-if (not (b == 0))
        (λ _.
          Returns-if (a == 2 ^ 31 && (b == 2 ^ 32 - 1)) (λ e. absurd (ground arith))
            (λ _. returns tt))
        (λ _. returns tt)

  rem32-Runs : (a b : ℕ) → (a ≢ 2 ^ 31) ⊎ (b ≢ 2 ^ 32 - 1) → Runs (rem32 a b)
  unfolding rem32
  rem32-Runs a b h =
      Returns-if (not (b == 0))
        (λ _.
          Returns-if (a == 2 ^ 31 && (b == 2 ^ 32 - 1)) (λ e. absurd (ground arith))
            (λ _. returns tt))
        (λ _. returns tt)

  pub exec_arithmetic-Runs :
      (op : Arithmetic) → IsBenign (some (arithmetic op)) i vm → Runs (exec_arithmetic op i vm)
  unfolding exec_arithmetic
  exec_arithmetic-Runs Arithmetic.add b = reg_reg-Runs _ (returns tt)
  exec_arithmetic-Runs Arithmetic.addu b = reg_reg-Runs _ (returns tt)
  exec_arithmetic-Runs Arithmetic.sub b = reg_reg-Runs _ (returns tt)
  exec_arithmetic-Runs Arithmetic.subu b = reg_reg-Runs _ (returns tt)
  exec_arithmetic-Runs Arithmetic.addi b = reg_imm-Runs _
  exec_arithmetic-Runs Arithmetic.addiu b = reg_imm-Runs _
  exec_arithmetic-Runs Arithmetic.mul b = reg_reg-Runs _ (returns tt)
  exec_arithmetic-Runs Arithmetic.mulh b = reg_reg-Runs _ (returns tt)
  exec_arithmetic-Runs Arithmetic.mulhu b = reg_reg-Runs _ (returns tt)
  exec_arithmetic-Runs Arithmetic.div b =
      reg_div-Runs div (div-Runs _ _ b) (div-Runs _ _ (inl (omega arith)))
  exec_arithmetic-Runs Arithmetic.divu b = reg_div-Runs _ (returns tt) (returns tt)
  exec_arithmetic-Runs Arithmetic.rem b =
      reg_div-Runs rem32 (rem32-Runs _ _ b) (rem32-Runs _ _ (inl (omega arith)))
  exec_arithmetic-Runs Arithmetic.remu b = reg_div-Runs _ (returns tt) (returns tt)

  pub exec_logical-Runs : (op : Logical) → Runs (exec_logical op i vm)
  unfolding exec_logical
  exec_logical-Runs Logical.and = reg_reg-Runs _ (returns tt)
  exec_logical-Runs Logical.or = reg_reg-Runs _ (returns tt)
  exec_logical-Runs Logical.xor = reg_reg-Runs _ (returns tt)
  exec_logical-Runs Logical.nor = reg_reg-Runs _ (returns tt)
  exec_logical-Runs Logical.andi = reg_imm-Runs _
  exec_logical-Runs Logical.ori = reg_imm-Runs _
  exec_logical-Runs Logical.xori = reg_imm-Runs _
  exec_logical-Runs Logical.lui = set_reg-Runs i.rt _ named.rt

  pub exec_shift-Runs : (op : Shift) → Runs (exec_shift op i vm)
  unfolding exec_shift
  exec_shift-Runs Shift.sll = shift_imm-Runs _
  exec_shift-Runs Shift.srl = shift_imm-Runs _
  exec_shift-Runs Shift.sra = shift_imm-Runs _
  exec_shift-Runs Shift.sllv = reg_reg-Runs _ (returns tt)
  exec_shift-Runs Shift.srlv = reg_reg-Runs _ (returns tt)
  exec_shift-Runs Shift.srav = reg_reg-Runs _ (returns tt)

  pub exec_comparison-Runs : (op : Comparison) → Runs (exec_comparison op i vm)
  unfolding exec_comparison
  exec_comparison-Runs Comparison.slt = reg_reg-Runs _ (returns tt)
  exec_comparison-Runs Comparison.sltu = reg_reg-Runs _ (returns tt)
  exec_comparison-Runs Comparison.slti = reg_imm-Runs _
  exec_comparison-Runs Comparison.sltiu = reg_imm-Runs _

  branch_if-Runs : (taken : Bool) → Runs (branch_if taken i vm)
  unfolding branch_if
  branch_if-Runs taken = returns tt

  compare_zero-Runs : (test : ℤ → Bool) → Runs (compare_zero test i vm)
  unfolding compare_zero
  compare_zero-Runs test = rw (get_reg-ok vm i.rs named.rs) (branch_if-Runs _)

  compare_regs-Runs : (test : ℕ → ℕ → Bool) → Runs (compare_regs test i vm)
  unfolding compare_regs
  compare_regs-Runs test =
      rw (get_reg-ok vm i.rs named.rs, get_reg-ok vm i.rt named.rt) (branch_if-Runs _)

  pub exec_branch-Runs : (op : Branch) → Runs (exec_branch op i vm)
  unfolding exec_branch
  exec_branch-Runs Branch.beq = compare_regs-Runs _
  exec_branch-Runs Branch.bne = compare_regs-Runs _
  exec_branch-Runs Branch.blez = compare_zero-Runs _
  exec_branch-Runs Branch.bgtz = compare_zero-Runs _
  exec_branch-Runs Branch.bltz = compare_zero-Runs _
  exec_branch-Runs Branch.bgez = compare_zero-Runs _

  pub exec_jump-Runs : (op : Jump) → Runs (exec_jump op i vm)
  unfolding exec_jump
  exec_jump-Runs Jump.j = returns tt
  exec_jump-Runs Jump.jal = rw (set_reg-ok vm 31 vm.pc (omega arith)) (returns tt)
  exec_jump-Runs Jump.jr = rw (get_reg-ok vm i.rs named.rs) (returns tt)
  exec_jump-Runs Jump.jalr =
      rw
        (
          set_reg-ok vm i.rd vm.pc named.rd,
          get_reg-ok (record vm { regs = update vm.regs i.rd vm.pc }) i.rs named.rs,
        )
        (returns tt)

  pub exec_system-Runs : (op : System) → Runs (exec_system op i vm)
  unfolding exec_system
  exec_system-Runs System.syscall = returns tt
  exec_system-Runs System.break = returns tt

  privileged-Runs : (action : Vm → Outcome Vm) → Runs (action vm) → Runs (privileged action vm)
  unfolding privileged
  privileged-Runs action r = Returns-if (not vm.kernel_mode) (λ _. returns tt) (λ _. r)

  iret-Runs : Fits vm → vm.interrupts.saved_regs_addr + 128 < 2 ^ 32 → Runs (iret vm)
  unfolding iret
  iret-Runs f low =
      Returns-if (leb (u32 (vm.interrupts.saved_regs_addr + 128)) vm.memory_size)
        (λ fits.
          rw
            (restore_regs-restored vm.memory vm.interrupts.saved_regs_addr 32 0 32 vm.regs f.bytes
              (omega arith) (ground (arith, f.allocated)))
            (returns tt))
        (λ _. returns tt)

  pub exec_interrupt-Runs :
      (op : Interrupt)
      → Fits vm
      → IsBenign (some (interrupt op)) i vm
      → Runs (exec_interrupt op i vm)
  unfolding exec_interrupt
  exec_interrupt-Runs Interrupt.ei f b = privileged-Runs _ (returns tt)
  exec_interrupt-Runs Interrupt.di f b = privileged-Runs _ (returns tt)
  exec_interrupt-Runs Interrupt.iret f b = privileged-Runs iret (iret-Runs f b)
  exec_interrupt-Runs Interrupt.raise f b = returns tt
  exec_interrupt-Runs Interrupt.getpc f b = set_reg-Runs i.rd _ named.rd

  set_ptbr-Runs : Runs (set_ptbr i vm)
  unfolding set_ptbr
  set_ptbr-Runs = rw (get_reg-ok vm i.rd named.rd, get_reg-ok vm i.rt named.rt) (returns tt)

  pub exec_privilege-Runs : (op : Privilege) → Runs (exec_privilege op i vm)
  unfolding exec_privilege
  exec_privilege-Runs Privilege.enable_paging = privileged-Runs _ (returns tt)
  exec_privilege-Runs Privilege.disable_paging = privileged-Runs _ (returns tt)
  exec_privilege-Runs Privilege.set_ptbr = privileged-Runs (set_ptbr i) set_ptbr-Runs
  exec_privilege-Runs Privilege.enter_user = privileged-Runs _ (returns tt)
  exec_privilege-Runs Privilege.getmode = set_reg-Runs i.rd _ named.rd
