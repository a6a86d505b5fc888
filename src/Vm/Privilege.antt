-- ===== src/Vm/Privilege.antt =====
-- Kernel and user mode in the cases of `c32_vm_step`.
pub mod Confined
pub mod User
pub mod Isolated
use crisp.Base.{ℕ, ◌≡◌, refl, ap, arith, Bool, true, false, not, if◌then◌else◌, Outcome, ok}
use crisp.Vm.State.{Vm}
use crisp.Vm.Interrupts.{raise_interrupt}
use crisp.Vm.Instruction.{Instruction}
use crisp.Vm.Opcode.{Opcode, interrupt, privilege, Interrupt, Privilege}
use crisp.Vm.Execute.System.{privileged, exec_interrupt, exec_privilege}
use crisp.Vm.Execute.{exec_opcode}

abbrev guarded : Bool → (Vm → Outcome Vm) → Vm → Outcome Vm
guarded mode action vm = if not mode then ok (raise_interrupt vm 7) else action vm

pub privileged-kernel :
    (action : Vm → Outcome Vm) (vm : Vm) → vm.kernel_mode ≡ true → privileged action vm ≡ action vm
unfolding privileged
privileged-kernel action vm e = ap (λ mode. guarded mode action vm) e

pub privileged-user :
    (action : Vm → Outcome Vm) (vm : Vm)
    → vm.kernel_mode ≡ false
    → privileged action vm ≡ ok (raise_interrupt vm 7)
unfolding privileged
privileged-user action vm e = ap (λ mode. guarded mode action vm) e

-- The opcodes that the specification calls privileged.
unfoldable pub is_privileged : Opcode → Bool
is_privileged (interrupt Interrupt.ei) = true
is_privileged (interrupt Interrupt.di) = true
is_privileged (interrupt Interrupt.iret) = true
is_privileged (privilege Privilege.enable_paging) = true
is_privileged (privilege Privilege.disable_paging) = true
is_privileged (privilege Privilege.set_ptbr) = true
is_privileged (privilege Privilege.enter_user) = true
is_privileged _ = false

-- In user mode a privileged instruction does nothing but raise interrupt 7.
pub exec_opcode-privileged :
    (op : Opcode) (i : Instruction) (vm : Vm)
    → is_privileged op ≡ true
    → vm.kernel_mode ≡ false
    → exec_opcode op i vm ≡ ok (raise_interrupt vm 7)
unfolding is_privileged exec_opcode exec_interrupt exec_privilege
exec_opcode-privileged (interrupt Interrupt.ei) i vm p u = privileged-user _ vm u
exec_opcode-privileged (interrupt Interrupt.di) i vm p u = privileged-user _ vm u
exec_opcode-privileged (interrupt Interrupt.iret) i vm p u = privileged-user _ vm u
exec_opcode-privileged (privilege Privilege.enable_paging) i vm p u = privileged-user _ vm u
exec_opcode-privileged (privilege Privilege.disable_paging) i vm p u = privileged-user _ vm u
exec_opcode-privileged (privilege Privilege.set_ptbr) i vm p u = privileged-user _ vm u
exec_opcode-privileged (privilege Privilege.enter_user) i vm p u = privileged-user _ vm u
exec_opcode-privileged _ i vm p u = cc
