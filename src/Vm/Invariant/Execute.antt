-- ===== src/Vm/Invariant/Execute.antt =====
-- Well-formed states and the cases of the `switch` of `c32_vm_step`.
use crisp.Base.{
  ℕ, zero, suc, ◌+◌, ◌*◌, ◌<◌, arith, Bool, true, false, not, leb, ◌==◌, ◌&&◌, u32, u16, u8,
  Outcome, Option, none, some,
}
use crisp.Array.{Array, update}
use crisp.Vm.Memory.Laws.{AreBytes}
use crisp.Vm.State.{Vm}
use crisp.Vm.Mmu.{invalid_address}
use crisp.Vm.Instruction.{Instruction}
use crisp.Vm.Opcode.{
  Opcode, special, arithmetic, logical, shift, comparison, memory, branch, jump, system, interrupt,
  privilege, Memory, Jump, System, Interrupt, Privilege, opcode_of,
}
use crisp.Vm.Execute.Memory.{data_address, load_with, store_with, exec_memory}
use crisp.Vm.Execute.Control.{exec_jump}
use crisp.Vm.Execute.System.{
  exec_system, exec_interrupt, exec_privilege, privileged, set_enabled, restore_regs, iret,
  set_ptbr,
}
use crisp.Vm.Execute.{exec_opcode, exec_selected, execute}
use crisp.Vm.Invariant.{
  IsWord, Fits, Post, ends, Post-bind, Post-mono, Post-if, get_reg-IsWord, set_reg-Fits,
  with_pc-Fits, halted-Fits, raise_interrupt-Fits,
}
use crisp.Vm.Invariant.Values.{word-IsWord}
use crisp.Vm.Invariant.Memory.{
  IsRewrite, read_word-IsWord, read_half-IsHalf, read_byte-IsByte, write_word-IsRewrite,
  write_half-IsRewrite, write_byte-IsRewrite, with_rewrite-Fits,
}
use crisp.Vm.Invariant.Mmu.{translate_address-Translated}
use crisp.Vm.Invariant.Registers.{
  exec_arithmetic-Fits, exec_logical-Fits, exec_shift-Fits, exec_comparison-Fits, exec_branch-Fits,
}

-- What a data access knows: the state is well formed.
abbrev Located : Option ℕ × Vm → Type 0
Located t = Fits t.1

module _ (i : Instruction) where
  data_address-Located :
      {vm : Vm} (f : Fits vm) (w : Bool) (n : ℕ) → Post Located (data_address w n i vm)
  unfolding data_address
  data_address-Located f w n = Post-bind (get_reg-IsWord f i.rs) λ a ha.
      Post-bind (translate_address-Translated f (u32 (a + i.immediate)) w false (omega arith))
        λ (phys, vm') (_, f', _).
          Post-if (not (phys == invalid_address) && leb (u32 (phys + n)) vm'.memory_size)
            (λ _. ends f') (λ _. ends f')

  load_with-Fits :
      (read : Array → ℕ → Outcome ℕ)
      → ((m : Array) (a : ℕ) → AreBytes m → Post IsWord (read m a))
      → (t : Option ℕ × Vm) → Located t
      → Post Fits (load_with read i t)
  unfolding load_with
  load_with-Fits read h (none, vm) f = ends f
  load_with-Fits read h (some a, vm) f =
      Post-bind (h vm.memory a f.bytes) λ v hv. set_reg-Fits f i.rt v hv

  store_with-Fits :
      (write : Array → ℕ → ℕ → Outcome Array)
      → ((m : Array) (a v : ℕ) → AreBytes m → IsWord v → Post (IsRewrite m) (write m a v))
      → (t : Option ℕ × Vm) → Located t
      → Post Fits (store_with write i t)
  unfolding store_with
  store_with-Fits write h (none, vm) f = ends f
  store_with-Fits write h (some a, vm) f =
      Post-bind (get_reg-IsWord f i.rt)
        λ v hv. Post-bind (h vm.memory a v f.bytes hv) λ m r. ends (with_rewrite-Fits m f r)

abbrev AreWords : (ℕ → ℕ) → Type 0
AreWords regs = (k : ℕ) → k < 32 → IsWord (regs k)

restore_regs-AreWords :
    (m : Array)
    → AreBytes m
    → (addr left i : ℕ) (regs : ℕ → ℕ) → AreWords regs
    → Post AreWords (restore_regs m addr left i regs)
unfolding restore_regs
restore_regs-AreWords m bytes addr zero i regs h = ends h
restore_regs-AreWords m bytes addr (suc left) i regs h =
    Post-bind (read_word-IsWord m bytes (addr + i * 4)) λ v hv.
      restore_regs-AreWords m bytes addr left (i + 1) (update regs i v)
        (λ k below. ground (arith, h k))

module _ (i : Instruction) (imm : IsWord i.immediate) {vm : Vm} (f : Fits vm) where
  exec_memory-Fits : (op : Memory) → Post Fits (exec_memory op i vm)
  unfolding exec_memory
  exec_memory-Fits Memory.lw =
      Post-bind (data_address-Located i f false 4)
        (load_with-Fits i _ λ m a b. read_word-IsWord m b a)
  exec_memory-Fits Memory.lh =
      Post-bind (data_address-Located i f false 2)
        (load_with-Fits i _ λ m a b. Post-bind (read_half-IsHalf m b a) λ h _. ends (word-IsWord _))
  exec_memory-Fits Memory.lhu =
      Post-bind (data_address-Located i f false 2)
        (load_with-Fits i _ λ m a b. Post-mono (read_half-IsHalf m b a) λ h p. omega arith)
  exec_memory-Fits Memory.lb =
      Post-bind (data_address-Located i f false 1)
        (load_with-Fits i _ λ m a b. Post-bind (read_byte-IsByte m b a) λ h _. ends (word-IsWord _))
  exec_memory-Fits Memory.lbu =
      Post-bind (data_address-Located i f false 1)
        (load_with-Fits i _ λ m a b. Post-mono (read_byte-IsByte m b a) λ h p. omega arith)
  exec_memory-Fits Memory.sw =
      Post-bind (data_address-Located i f true 4)
        (store_with-Fits i _ λ m a v b h. write_word-IsRewrite m b a v h)
  exec_memory-Fits Memory.sh =
      Post-bind (data_address-Located i f true 2)
        (store_with-Fits i _ λ m a v b _. write_half-IsRewrite m b a (u16 v) (omega arith))
  exec_memory-Fits Memory.sb =
      Post-bind (data_address-Located i f true 1)
        (store_with-Fits i _ λ m a v b _. write_byte-IsRewrite m b a (u8 v) (omega arith))

  exec_jump-Fits : (op : Jump) → Post Fits (exec_jump op i vm)
  unfolding exec_jump
  exec_jump-Fits Jump.j = ends (with_pc-Fits f _ imm)
  exec_jump-Fits Jump.jal =
      Post-bind (set_reg-Fits f 31 vm.pc f.pc) λ vm' f'. ends (with_pc-Fits f' _ imm)
  exec_jump-Fits Jump.jr = Post-bind (get_reg-IsWord f i.rs) λ a ha. ends (with_pc-Fits f a ha)
  exec_jump-Fits Jump.jalr =
      Post-bind (set_reg-Fits f i.rd vm.pc f.pc)
        λ vm' f'. Post-bind (get_reg-IsWord f' i.rs) λ a ha. ends (with_pc-Fits f' a ha)

  exec_system-Fits : (op : System) → Post Fits (exec_system op i vm)
  unfolding exec_system
  exec_system-Fits System.syscall = ends (halted-Fits (raise_interrupt-Fits f 4))
  exec_system-Fits System.break = ends (halted-Fits (raise_interrupt-Fits f 5))

  privileged-Fits :
      (action : Vm → Outcome Vm) → Post Fits (action vm) → Post Fits (privileged action vm)
  unfolding privileged
  privileged-Fits action h =
      Post-if (not vm.kernel_mode) (λ _. ends (raise_interrupt-Fits f 7)) (λ _. h)

  set_enabled-Fits : (b : Bool) → Fits (set_enabled b vm)
  set_enabled-Fits b = grind arith

  iret-Fits : Post Fits (iret vm)
  unfolding iret
  iret-Fits =
      Post-if (leb (u32 (vm.interrupts.saved_regs_addr + 128)) vm.memory_size)
        (λ _.
          Post-bind (restore_regs-AreWords vm.memory f.bytes _ 32 0 vm.regs f.regs)
            λ regs h. ends (returned-Fits regs h))
        (λ _. ends (returned-Fits vm.regs f.regs))
    where
      returned-Fits :
          (regs : ℕ → ℕ)
          → ((k : ℕ) → k < 32 → IsWord (regs k))
          → Fits (record (set_enabled true (record vm { pc = vm.interrupts.saved_pc })) {
            regs = regs;
          })
      returned-Fits regs h = grind arith

  exec_interrupt-Fits : (op : Interrupt) → Post Fits (exec_interrupt op i vm)
  unfolding exec_interrupt
  exec_interrupt-Fits Interrupt.ei = privileged-Fits _ (ends (set_enabled-Fits true))
  exec_interrupt-Fits Interrupt.di = privileged-Fits _ (ends (set_enabled-Fits false))
  exec_interrupt-Fits Interrupt.iret = privileged-Fits _ iret-Fits
  exec_interrupt-Fits Interrupt.raise = ends (raise_interrupt-Fits f _)
  exec_interrupt-Fits Interrupt.getpc = set_reg-Fits f i.rd _ f.saved_pc

  set_ptbr-Fits : Post Fits (set_ptbr i vm)
  unfolding set_ptbr
  set_ptbr-Fits =
      Post-bind (get_reg-IsWord f i.rd)
        λ base hb. Post-bind (get_reg-IsWord f i.rt) λ pages hp. ends (grind arith)

  exec_privilege-Fits : (op : Privilege) → Post Fits (exec_privilege op i vm)
  unfolding exec_privilege
  exec_privilege-Fits Privilege.enable_paging = privileged-Fits _ (ends (grind arith))
  exec_privilege-Fits Privilege.disable_paging = privileged-Fits _ (ends (grind arith))
  exec_privilege-Fits Privilege.set_ptbr = privileged-Fits _ set_ptbr-Fits
  exec_privilege-Fits Privilege.enter_user = privileged-Fits _ (ends (grind arith))
  exec_privilege-Fits Privilege.getmode = set_reg-Fits f i.rd _ (ground arith)

  exec_opcode-Fits : (op : Opcode) → Post Fits (exec_opcode op i vm)
  unfolding exec_opcode
  exec_opcode-Fits (special _) = ends f
  exec_opcode-Fits (arithmetic op) = exec_arithmetic-Fits i imm f op
  exec_opcode-Fits (logical op) = exec_logical-Fits i imm f op
  exec_opcode-Fits (shift op) = exec_shift-Fits i imm f op
  exec_opcode-Fits (comparison op) = exec_comparison-Fits i imm f op
  exec_opcode-Fits (memory op) = exec_memory-Fits op
  exec_opcode-Fits (branch op) = exec_branch-Fits i imm f op
  exec_opcode-Fits (jump op) = exec_jump-Fits op
  exec_opcode-Fits (system op) = exec_system-Fits op
  exec_opcode-Fits (interrupt op) = exec_interrupt-Fits op
  exec_opcode-Fits (privilege op) = exec_privilege-Fits op

  exec_selected-Fits : (op : Option Opcode) → Post Fits (exec_selected op i vm)
  unfolding exec_selected
  exec_selected-Fits none = ends (halted-Fits (raise_interrupt-Fits f 1))
  exec_selected-Fits (some op) = exec_opcode-Fits op

  pub execute-Fits : Post Fits (execute i vm)
  unfolding execute
  execute-Fits = exec_selected-Fits (opcode_of i.opcode)
