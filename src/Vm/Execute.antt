-- ===== src/Vm/Execute.antt =====
-- The `switch` of `c32_vm_step` in src/vm/c32_vm.c. The children hold its cases, by the groups of
-- include/c32_opcodes.h.
pub mod Registers
pub mod Memory
pub mod Control
pub mod System
use crisp.Base.{Option, none, some, Outcome, ok, false}
use crisp.Vm.State.{Vm}
use crisp.Vm.Interrupts.{raise_interrupt}
use crisp.Vm.Instruction.{Instruction}
use crisp.Vm.Opcode.{
  Opcode, special, arithmetic, logical, shift, comparison, memory, branch, jump, system, interrupt,
  privilege, opcode_of,
}
unfoldable pub use Registers.{exec_arithmetic, exec_logical, exec_shift, exec_comparison}
unfoldable pub use Memory.{exec_memory}
unfoldable pub use Control.{exec_branch, exec_jump}
unfoldable pub use System.{exec_system, exec_interrupt, exec_privilege}

unfoldable pub exec_opcode : Opcode → Instruction → Vm → Outcome Vm
exec_opcode (special _) i vm = ok vm
exec_opcode (arithmetic op) i vm = exec_arithmetic op i vm
exec_opcode (logical op) i vm = exec_logical op i vm
exec_opcode (shift op) i vm = exec_shift op i vm
exec_opcode (comparison op) i vm = exec_comparison op i vm
exec_opcode (memory op) i vm = exec_memory op i vm
exec_opcode (branch op) i vm = exec_branch op i vm
exec_opcode (jump op) i vm = exec_jump op i vm
exec_opcode (system op) i vm = exec_system op i vm
exec_opcode (interrupt op) i vm = exec_interrupt op i vm
exec_opcode (privilege op) i vm = exec_privilege op i vm

-- The `default` case: interrupt 1, and a halt.
unfoldable pub exec_selected : Option Opcode → Instruction → Vm → Outcome Vm
exec_selected none i vm = ok (record (raise_interrupt vm 1) { running = false })
exec_selected (some op) i vm = exec_opcode op i vm

unfoldable pub execute : Instruction → Vm → Outcome Vm
execute i vm = exec_selected (opcode_of i.opcode) i vm
