-- ===== src/Vm/Execute/System.antt =====
-- The system, interrupt and privilege cases of `c32_vm_step`.
use crisp.Base.{
  ℕ, zero, suc, ◌+◌, ◌*◌, Bool, true, false, not, leb, if◌then◌else◌, Outcome, ok, ◌>>=◌, u8, u32,
}
use crisp.Array.{Array, update}
use crisp.Vm.Memory.{read_word}
use crisp.Vm.State.{Vm, get_reg, set_reg}
use crisp.Vm.Interrupts.{raise_interrupt}
use crisp.Vm.Instruction.{Instruction}
use crisp.Vm.Opcode.{System, Interrupt, Privilege}

unfoldable pub exec_system : System → Instruction → Vm → Outcome Vm
exec_system System.syscall i vm = ok (record (raise_interrupt vm 4) { running = false })
exec_system System.break i vm = ok (record (raise_interrupt vm 5) { running = false })

-- A privileged case: interrupt 7 in user mode.
unfoldable pub privileged : (Vm → Outcome Vm) → Vm → Outcome Vm
privileged action vm = if not vm.kernel_mode then ok (raise_interrupt vm 7) else action vm

abbrev pub set_enabled : Bool → Vm → Vm
set_enabled b vm = record vm { interrupts = record (vm.interrupts) { enabled = b } }

-- `for (; i < 32; i++) regs[i] = c32_read_word(vm->memory + addr + i * 4);`
unfoldable pub restore_regs : Array → ℕ → (left i : ℕ) → (ℕ → ℕ) → Outcome (ℕ → ℕ)
restore_regs m addr zero i regs = ok regs
restore_regs m addr (suc left) i regs = do
  v ← read_word m (addr + i * 4)
  restore_regs m addr left (i + 1) (update regs i v)

unfoldable pub iret : Vm → Outcome Vm
iret vm =
    let addr = vm.interrupts.saved_regs_addr in
    let returned = set_enabled true (record vm { pc = vm.interrupts.saved_pc }) in
    if leb (u32 (addr + 128)) vm.memory_size
    then (do regs ← restore_regs vm.memory addr 32 0 vm.regs; ok (record returned { regs = regs }))
    else ok returned

unfoldable pub exec_interrupt : Interrupt → Instruction → Vm → Outcome Vm
exec_interrupt Interrupt.ei i = privileged (λ vm. ok (set_enabled true vm))
exec_interrupt Interrupt.di i = privileged (λ vm. ok (set_enabled false vm))
exec_interrupt Interrupt.iret i = privileged iret
exec_interrupt Interrupt.raise i = λ vm. ok (raise_interrupt vm (u8 i.immediate))
exec_interrupt Interrupt.getpc i = λ vm. set_reg vm i.rd vm.interrupts.saved_pc

unfoldable pub set_ptbr : Instruction → Vm → Outcome Vm
set_ptbr i vm = do
  base ← get_reg vm i.rd
  pages ← get_reg vm i.rt
  ok (record vm { page_table_base = base; num_pages = pages })

unfoldable pub exec_privilege : Privilege → Instruction → Vm → Outcome Vm
exec_privilege Privilege.enable_paging i =
    privileged (λ vm. ok (record vm { paging_enabled = true }))
exec_privilege Privilege.disable_paging i =
    privileged (λ vm. ok (record vm { paging_enabled = false }))
exec_privilege Privilege.set_ptbr i = privileged (set_ptbr i)
exec_privilege Privilege.enter_user i = privileged (λ vm. ok (record vm { kernel_mode = false }))
exec_privilege Privilege.getmode i = λ vm. set_reg vm i.rd (if vm.kernel_mode then 1 else 0)
