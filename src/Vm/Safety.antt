-- ===== src/Vm/Safety.antt =====
-- When a run of `c32_vm_step` in src/vm/c32_vm.c is free of undefined behaviour: the conditions on
-- the machine and on the instruction.
pub mod Access
pub mod Execute
pub mod Registers
pub mod Step
use crisp.Base.{ℕ, ◌+◌, ◌-◌, ◌*◌, ◌^◌, ◌≤◌, ◌<◌, ◌≢◌, ◌⊎◌, Option, none, some, u32}
use crisp.Vm.Memory.Laws.{word_at}
use crisp.Vm.State.{Vm}
use crisp.Vm.Instruction.{Instruction}
use crisp.Vm.Opcode.{
  Opcode, arithmetic, logical, shift, comparison, memory, branch, jump, system, interrupt,
  privilege, special, Arithmetic, Logical, Memory, Interrupt,
}

-- The page table lies inside the memory, and its entries name frames in the lower half of the
-- addresses.
pub record IsPlaced (vm : Vm) : Type 0 where
  pub table : vm.page_table_base + vm.num_pages * 4 ≤ vm.memory_size
  pub entries : (k : ℕ) → k < vm.num_pages → word_at vm.memory (vm.page_table_base + k * 4) < 2 ^ 31

-- The registers of an instruction are registers.
pub record HasRegisters (i : Instruction) : Type 0 where
  pub rs : i.rs < 32
  pub rt : i.rt < 32
  pub rd : i.rd < 32

-- A division is not the one that overflows, an access does not run over the end of the addresses,
-- and neither does the frame that IRET reads.
abbrev pub IsBenign : Option Opcode → Instruction → Vm → Type 0
IsBenign none i vm = Unit {0}
IsBenign (some (arithmetic Arithmetic.div)) i vm =
    (vm.regs i.rs ≢ 2 ^ 31) ⊎ (vm.regs i.rt ≢ 2 ^ 32 - 1)
IsBenign (some (arithmetic Arithmetic.rem)) i vm =
    (vm.regs i.rs ≢ 2 ^ 31) ⊎ (vm.regs i.rt ≢ 2 ^ 32 - 1)
IsBenign (some (memory op)) i vm = u32 (vm.regs i.rs + i.immediate) + 4 < 2 ^ 32
IsBenign (some (interrupt Interrupt.iret)) i vm = vm.interrupts.saved_regs_addr + 128 < 2 ^ 32
IsBenign (some op) i vm = Unit {0}
