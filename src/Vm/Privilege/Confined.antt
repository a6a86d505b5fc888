-- ===== src/Vm/Privilege/Confined.antt =====
-- The privileged part of the machine state, and the register cases of `c32_vm_step`.
use crisp.Base.{
  ℕ, ◌≡◌, ◌==◌, not, if◌then◌else◌, ok, refl, arith, Bool, true, false, ltb, Outcome, Bool-cases,
  inl, inr, ◌/◌,
}
use crisp.Base.Int.{ℤ}
use crisp.Array.{Array}
use crisp.Vm.State.{Vm, get_reg, set_reg}
use crisp.Vm.Interrupts.{raise_interrupt}
use crisp.Vm.Instruction.{Instruction}
use crisp.Vm.Opcode.{Arithmetic, Logical, Shift, Comparison, Branch}
use crisp.Vm.Execute.Registers.{
  reg_reg, reg_div, reg_imm, shift_imm, exec_arithmetic, exec_logical, exec_shift, exec_comparison,
}
use crisp.Vm.Execute.Control.{branch_if, compare_regs, compare_zero, exec_branch}
use crisp.Vm.Invariant.{Post, ends, faults, Post-bind, Post-if}

-- The privileged part of the state is the same in both.
pub record Confined (vm vm' : Vm) : Type 0 where
  pub mode : vm'.kernel_mode ≡ vm.kernel_mode
  pub paging : vm'.paging_enabled ≡ vm.paging_enabled
  pub table : vm'.page_table_base ≡ vm.page_table_base
  pub pages : vm'.num_pages ≡ vm.num_pages
  pub enabled : vm'.interrupts.enabled ≡ vm.interrupts.enabled
  pub saved_pc : vm'.interrupts.saved_pc ≡ vm.interrupts.saved_pc
  pub frame : vm'.interrupts.saved_regs_addr ≡ vm.interrupts.saved_regs_addr
  pub size : vm'.memory_size ≡ vm.memory_size

-- Registers, PC, memory, the running flag and the pending interrupts are not privileged.
pub unprivileged :
    (vm : Vm) (regs : ℕ → ℕ) (pc : ℕ) (m : Array) (running : Bool) (pending : ℕ → ℕ)
    → Confined vm (record vm {
      regs = regs;
      pc = pc;
      memory = m;
      running = running;
      interrupts = record (vm.interrupts) { pending = pending };
    })
unprivileged vm regs pc m running pending = record {
  mode = refl;
  paging = refl;
  table = refl;
  pages = refl;
  enabled = refl;
  saved_pc = refl;
  frame = refl;
  size = refl;
}

pub Confined-trans : {a b c : Vm} → Confined a b → Confined b c → Confined a c
Confined-trans p q = ground arith

-- What an instruction changes in user mode, unless it is a store.
pub data Touches (vm : Vm) : Vm → Type 0 where
  touches :
      (regs : ℕ → ℕ) (pc : ℕ) (running : Bool) (pending : ℕ → ℕ)
      → Touches vm (record vm {
        regs = regs;
        pc = pc;
        running = running;
        interrupts = record (vm.interrupts) { pending = pending };
      })

pub Touches-trans : {a b c : Vm} → Touches a b → Touches b c → Touches a c
Touches-trans (touches _ _ _ _) (touches _ _ _ _) = touches _ _ _ _

pub Touches-Confined : {vm vm' : Vm} → Touches vm vm' → Confined vm vm'
Touches-Confined {vm = vm} (touches _ _ _ _) = unprivileged vm _ _ _ _ _

pub Touches-memory : {vm vm' : Vm} → Touches vm vm' → vm'.memory ≡ vm.memory
Touches-memory (touches _ _ _ _) = refl

pub Post-any {ℓ} : {A : Type ℓ} (m : Outcome A) → Post (λ _. Unit {0}) m
Post-any (Outcome.ok a) = ends tt
Post-any Outcome.fault = faults

module _ (vm : Vm) where
  pub set_reg-Touches : (k v : ℕ) → Post (Touches vm) (set_reg vm k v)
  unfolding set_reg
  set_reg-Touches k v = Post-if (ltb k 32) (λ _. ends (touches _ _ _ _)) (λ _. faults)

  pub raise_interrupt-Touches : (n : ℕ) → Touches vm (raise_interrupt vm n)
  unfolding raise_interrupt
  raise_interrupt-Touches n = elim (Bool-cases (ltb (n / 8) 32)) [
    | inl e ↦ rw e (touches _ _ _ _)
    | inr e ↦ rw e (touches _ _ _ _)
  ]

module _ (i : Instruction) (vm : Vm) where
  reg_reg-Touches : (op : ℕ → ℕ → Outcome ℕ) → Post (Touches vm) (reg_reg op i vm)
  unfolding reg_reg
  reg_reg-Touches op = Post-bind (Post-any (get_reg vm i.rs)) λ a _.
      Post-bind (Post-any (get_reg vm i.rt))
        λ b _. Post-bind (Post-any (op a b)) λ v _. set_reg-Touches vm i.rd v

  reg_div-Touches : (op : ℕ → ℕ → Outcome ℕ) → Post (Touches vm) (reg_div op i vm)
  unfolding reg_div
  reg_div-Touches op = Post-bind (Post-any (get_reg vm i.rt)) λ b _.
      Post-bind (Post-any (if not (b == 0) then get_reg vm i.rs else ok 0))
        λ a _. Post-bind (Post-any (op a b)) λ v _. set_reg-Touches vm i.rd v

  reg_imm-Touches : (op : ℕ → ℕ → ℕ) → Post (Touches vm) (reg_imm op i vm)
  unfolding reg_imm
  reg_imm-Touches op =
      Post-bind (Post-any (get_reg vm i.rs)) λ a _. set_reg-Touches vm i.rt (op a i.immediate)

  shift_imm-Touches : (op : ℕ → ℕ → ℕ) → Post (Touches vm) (shift_imm op i vm)
  unfolding shift_imm
  shift_imm-Touches op =
      Post-bind (Post-any (get_reg vm i.rt)) λ a _. set_reg-Touches vm i.rd (op a i.immediate)

  pub exec_arithmetic-Touches : (op : Arithmetic) → Post (Touches vm) (exec_arithmetic op i vm)
  unfolding exec_arithmetic
  exec_arithmetic-Touches Arithmetic.addi = reg_imm-Touches _
  exec_arithmetic-Touches Arithmetic.addiu = reg_imm-Touches _
  exec_arithmetic-Touches Arithmetic.div = reg_div-Touches _
  exec_arithmetic-Touches Arithmetic.divu = reg_div-Touches _
  exec_arithmetic-Touches Arithmetic.rem = reg_div-Touches _
  exec_arithmetic-Touches Arithmetic.remu = reg_div-Touches _
  exec_arithmetic-Touches _ = reg_reg-Touches _

  pub exec_logical-Touches : (op : Logical) → Post (Touches vm) (exec_logical op i vm)
  unfolding exec_logical
  exec_logical-Touches Logical.andi = reg_imm-Touches _
  exec_logical-Touches Logical.ori = reg_imm-Touches _
  exec_logical-Touches Logical.xori = reg_imm-Touches _
  exec_logical-Touches Logical.lui = set_reg-Touches vm i.rt _
  exec_logical-Touches _ = reg_reg-Touches _

  pub exec_shift-Touches : (op : Shift) → Post (Touches vm) (exec_shift op i vm)
  unfolding exec_shift
  exec_shift-Touches Shift.sll = shift_imm-Touches _
  exec_shift-Touches Shift.srl = shift_imm-Touches _
  exec_shift-Touches Shift.sra = shift_imm-Touches _
  exec_shift-Touches _ = reg_reg-Touches _

  pub exec_comparison-Touches : (op : Comparison) → Post (Touches vm) (exec_comparison op i vm)
  unfolding exec_comparison
  exec_comparison-Touches Comparison.slti = reg_imm-Touches _
  exec_comparison-Touches Comparison.sltiu = reg_imm-Touches _
  exec_comparison-Touches _ = reg_reg-Touches _

  branch_if-Touches : (taken : Bool) → Post (Touches vm) (branch_if taken i vm)
  unfolding branch_if
  branch_if-Touches true = ends (touches _ _ _ _)
  branch_if-Touches false = ends (touches _ _ _ _)

  compare_regs-Touches : (test : ℕ → ℕ → Bool) → Post (Touches vm) (compare_regs test i vm)
  unfolding compare_regs
  compare_regs-Touches test =
      Post-bind (Post-any (get_reg vm i.rs))
        λ a _. Post-bind (Post-any (get_reg vm i.rt)) λ b _. branch_if-Touches (test a b)

  compare_zero-Touches : (test : ℤ → Bool) → Post (Touches vm) (compare_zero test i vm)
  unfolding compare_zero
  compare_zero-Touches test = Post-bind (Post-any (get_reg vm i.rs)) λ a _. branch_if-Touches _

  pub exec_branch-Touches : (op : Branch) → Post (Touches vm) (exec_branch op i vm)
  unfolding exec_branch
  exec_branch-Touches Branch.beq = compare_regs-Touches _
  exec_branch-Touches Branch.bne = compare_regs-Touches _
  exec_branch-Touches _ = compare_zero-Touches _
