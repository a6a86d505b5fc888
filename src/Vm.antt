-- ===== src/Vm.antt =====
-- The virtual machine, src/vm/c32_vm.c and include/c32_vm.h.
pub mod Memory
pub mod Runner
pub mod Safety
pub mod State
pub mod Interrupts
pub mod Mmu
pub mod Opcode
pub mod Alu
pub mod Instruction
pub mod Execute
pub mod Step
pub mod Run
pub mod Lifecycle
pub mod Invariant
pub mod Privilege
