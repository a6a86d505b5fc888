-- ===== src/Vm/Privilege/User.antt =====
-- The cases of the `switch` of `c32_vm_step`, run in user mode.
use crisp.Base.{
  ℕ, ◌+◌, ◌*◌, ◌/◌, ◌^◌, ◌≡◌, Bool, true, false, ◌>>=◌, not, ◌&&◌, ltb, leb, ◌==◌, Outcome, ok,
  Option, none, some, u32, bit_and,
}
use crisp.Array.{Array}
use crisp.Vm.State.{Vm, get_reg}
use crisp.Vm.Interrupts.{raise_interrupt}
use crisp.Vm.Mmu.{invalid_address, page_fault, apply_entry, translate_address}
use crisp.Vm.Memory.{read_word}
use crisp.Vm.Instruction.{Instruction}
use crisp.Vm.Opcode.{
  Opcode, special, arithmetic, logical, shift, comparison, memory, branch, jump, system, interrupt,
  privilege, Memory, Jump, System, Interrupt, Privilege, opcode_of,
}
use crisp.Vm.Execute.Memory.{data_address, load_with, store_with, exec_memory}
use crisp.Vm.Execute.Control.{exec_jump}
use crisp.Vm.Execute.System.{exec_system, exec_interrupt, exec_privilege, privileged}
use crisp.Vm.Execute.{exec_opcode, exec_selected, execute}
use crisp.Vm.Invariant.{Post, ends, Post-bind, Post-mono, Post-if, Post-ok}
use crisp.Vm.Privilege.{privileged-user}
use crisp.Vm.Privilege.Confined.{
  Confined, Confined-trans, unprivileged, Touches, touches, Touches-trans, Touches-Confined,
  Post-any, set_reg-Touches, raise_interrupt-Touches, exec_arithmetic-Touches, exec_logical-Touches,
  exec_shift-Touches, exec_comparison-Touches, exec_branch-Touches,
}

abbrev pub is_store : Opcode → Bool
is_store (memory Memory.sw) = true
is_store (memory Memory.sh) = true
is_store (memory Memory.sb) = true
is_store _ = false

-- A translation does not touch the memory.
abbrev Kept {ℓ} : {A : Type ℓ} → Vm → A × Vm → Type 0
Kept vm t = Touches vm t.1

module _ (vm : Vm) where
  page_fault-Kept : Post (Kept vm) (page_fault vm)
  unfolding page_fault
  page_fault-Kept = ends (raise_interrupt-Touches vm 8)

  apply_entry-Kept : (pte offset : ℕ) (w x : Bool) → Post (Kept vm) (apply_entry vm pte offset w x)
  unfolding apply_entry
  apply_entry-Kept pte offset w x =
      Post-if (bit_and pte 1 == 0) (λ _. page_fault-Kept)
        (λ _.
          Post-if (bit_and (pte / 2 ^ 3) 1 == 0) (λ _. page_fault-Kept)
            (λ _.
              Post-if (w && (bit_and (pte / 2 ^ 1) 1 == 0)) (λ _. page_fault-Kept)
                (λ _.
                  Post-if (x && (bit_and (pte / 2 ^ 2) 1 == 0)) (λ _. page_fault-Kept)
                    (λ _. ends (touches _ _ _ _)))))

  translate_address-Kept :
      (vaddr : ℕ) (w x : Bool) → Post (Kept vm) (translate_address vm vaddr w x)
  unfolding translate_address
  translate_address-Kept vaddr w x =
      let entry = u32 (vm.page_table_base + u32 (vaddr / 2 ^ 12 * 4)) in
      Post-if vm.kernel_mode (λ _. ends (touches _ _ _ _))
        (λ _.
          Post-if (not vm.paging_enabled) (λ _. ends (touches _ _ _ _))
            (λ _.
              Post-if (leb vm.num_pages (vaddr / 2 ^ 12)) (λ _. page_fault-Kept)
                (λ _.
                  Post-if (ltb vm.memory_size (u32 (entry + 4))) (λ _. page_fault-Kept)
                    (λ _.
                      Post-bind (Post-any (read_word vm.memory entry))
                        λ pte _. apply_entry-Kept pte _ w x))))

module _ (i : Instruction) (vm : Vm) where
  data_address-Kept : (w : Bool) (n : ℕ) → Post (Kept vm) (data_address w n i vm)
  unfolding data_address
  data_address-Kept w n = Post-bind (Post-any (get_reg vm i.rs)) λ a _.
      Post-bind (translate_address-Kept vm (u32 (a + i.immediate)) w false) λ (phys, vm') c.
        Post-if (not (phys == invalid_address) && leb (u32 (phys + n)) vm'.memory_size)
          (λ _. ends c) (λ _. ends c)

  load_with-Touches :
      (read : Array → ℕ → Outcome ℕ) (t : Option ℕ × Vm)
      → Kept vm t
      → Post (Touches vm) (load_with read i t)
  unfolding load_with
  load_with-Touches read (none, vm') c = ends c
  load_with-Touches read (some a, vm') c =
      Post-bind (Post-any (read vm'.memory a))
        λ v _. Post-mono (set_reg-Touches vm' i.rt v) λ _ d. Touches-trans c d

  store_with-Confined :
      (write : Array → ℕ → ℕ → Outcome Array) (t : Option ℕ × Vm)
      → Kept vm t
      → Post (Confined vm) (store_with write i t)
  unfolding store_with
  store_with-Confined write (none, vm') c = ends (Touches-Confined c)
  store_with-Confined write (some a, vm') c = Post-bind (Post-any (get_reg vm' i.rt)) λ v _.
      Post-bind (Post-any (write vm'.memory a v))
        λ m _. ends (Confined-trans (Touches-Confined c) (unprivileged vm' _ _ _ _ _))

  exec_load-Touches :
      (w : Bool) (n : ℕ) (read : Array → ℕ → Outcome ℕ)
      → Post (Touches vm) (data_address w n i vm >>= load_with read i)
  exec_load-Touches w n read = Post-bind (data_address-Kept w n) (load_with-Touches read)

  exec_store-Confined :
      (n : ℕ) (write : Array → ℕ → ℕ → Outcome Array)
      → Post (Confined vm) (data_address true n i vm >>= store_with write i)
  exec_store-Confined n write = Post-bind (data_address-Kept true n) (store_with-Confined write)

  exec_jump-Touches : (op : Jump) → Post (Touches vm) (exec_jump op i vm)
  unfolding exec_jump
  exec_jump-Touches Jump.j = ends (touches _ _ _ _)
  exec_jump-Touches Jump.jal =
      Post-bind (set_reg-Touches vm 31 vm.pc) λ vm' c. ends (Touches-trans c (touches _ _ _ _))
  exec_jump-Touches Jump.jr = Post-bind (Post-any (get_reg vm i.rs)) λ a _. ends (touches _ _ _ _)
  exec_jump-Touches Jump.jalr = Post-bind (set_reg-Touches vm i.rd vm.pc) λ vm' c.
      Post-bind (Post-any (get_reg vm' i.rs)) λ a _. ends (Touches-trans c (touches _ _ _ _))

  pub halted-Touches : (n : ℕ) → Touches vm (record (raise_interrupt vm n) { running = false })
  halted-Touches n = Touches-trans (raise_interrupt-Touches vm n) (touches _ _ _ _)

  exec_system-Touches : (op : System) → Post (Touches vm) (exec_system op i vm)
  unfolding exec_system
  exec_system-Touches System.syscall = ends (halted-Touches 4)
  exec_system-Touches System.break = ends (halted-Touches 5)

  module _ (user : vm.kernel_mode ≡ false) where
    privileged-Touches : (action : Vm → Outcome Vm) → Post (Touches vm) (privileged action vm)
    privileged-Touches action =
        rw (privileged-user action vm user) (ends (raise_interrupt-Touches vm 7))

    exec_interrupt-Touches : (op : Interrupt) → Post (Touches vm) (exec_interrupt op i vm)
    unfolding exec_interrupt
    exec_interrupt-Touches Interrupt.ei = privileged-Touches _
    exec_interrupt-Touches Interrupt.di = privileged-Touches _
    exec_interrupt-Touches Interrupt.iret = privileged-Touches _
    exec_interrupt-Touches Interrupt.raise = ends (raise_interrupt-Touches vm _)
    exec_interrupt-Touches Interrupt.getpc = set_reg-Touches vm i.rd _

    exec_privilege-Touches : (op : Privilege) → Post (Touches vm) (exec_privilege op i vm)
    unfolding exec_privilege
    exec_privilege-Touches Privilege.getmode = set_reg-Touches vm i.rd _
    exec_privilege-Touches Privilege.enable_paging = privileged-Touches _
    exec_privilege-Touches Privilege.disable_paging = privileged-Touches _
    exec_privilege-Touches Privilege.set_ptbr = privileged-Touches _
    exec_privilege-Touches Privilege.enter_user = privileged-Touches _

    -- Every instruction that is not a store.
    pub exec_opcode-Touches :
        (op : Opcode) → is_store op ≡ false → Post (Touches vm) (exec_opcode op i vm)
    unfolding exec_opcode exec_memory
    exec_opcode-Touches (special _) e = ends (touches _ _ _ _)
    exec_opcode-Touches (arithmetic op) e = exec_arithmetic-Touches i vm op
    exec_opcode-Touches (logical op) e = exec_logical-Touches i vm op
    exec_opcode-Touches (shift op) e = exec_shift-Touches i vm op
    exec_opcode-Touches (comparison op) e = exec_comparison-Touches i vm op
    exec_opcode-Touches (memory Memory.lw) e = exec_load-Touches false 4 _
    exec_opcode-Touches (memory Memory.lh) e = exec_load-Touches false 2 _
    exec_opcode-Touches (memory Memory.lhu) e = exec_load-Touches false 2 _
    exec_opcode-Touches (memory Memory.lb) e = exec_load-Touches false 1 _
    exec_opcode-Touches (memory Memory.lbu) e = exec_load-Touches false 1 _
    exec_opcode-Touches (memory Memory.sw) e = absurd (cc e)
    exec_opcode-Touches (memory Memory.sh) e = absurd (cc e)
    exec_opcode-Touches (memory Memory.sb) e = absurd (cc e)
    exec_opcode-Touches (branch op) e = exec_branch-Touches i vm op
    exec_opcode-Touches (jump op) e = exec_jump-Touches op
    exec_opcode-Touches (system op) e = exec_system-Touches op
    exec_opcode-Touches (interrupt op) e = exec_interrupt-Touches op
    exec_opcode-Touches (privilege op) e = exec_privilege-Touches op

    exec_opcode-Confined : (op : Opcode) → Post (Confined vm) (exec_opcode op i vm)
    unfolding exec_opcode exec_memory
    exec_opcode-Confined (memory Memory.sw) = exec_store-Confined 4 _
    exec_opcode-Confined (memory Memory.sh) = exec_store-Confined 2 _
    exec_opcode-Confined (memory Memory.sb) = exec_store-Confined 1 _
    exec_opcode-Confined op =
        Post-mono (exec_opcode-Touches op (λ _. false)) λ _ t. Touches-Confined t

    exec_selected-Confined : (op : Option Opcode) → Post (Confined vm) (exec_selected op i vm)
    unfolding exec_selected
    exec_selected-Confined none = ends (Touches-Confined (halted-Touches 1))
    exec_selected-Confined (some op) = exec_opcode-Confined op

-- In user mode, whatever the instruction (undefined opcodes included), an execution free of
-- undefined behaviour leaves the mode, the paging flag, the page table's base and length, the
-- interrupt enable flag, the saved PC, the frame's address and the memory size unchanged.
pub execute-Confined :
    (i : Instruction) (vm vm' : Vm)
    → vm.kernel_mode ≡ false
    → execute i vm ≡ ok vm'
    → Confined vm vm'
unfolding execute
execute-Confined i vm vm' user e = Post-ok (exec_selected-Confined i vm user (opcode_of i.opcode)) e
