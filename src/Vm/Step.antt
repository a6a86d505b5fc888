-- ===== src/Vm/Step.antt =====
-- `c32_vm_step` of src/vm/c32_vm.c.
use crisp.Base.{
  ℕ, ◌+◌, bit_and, true, false, not, ltb, ◌==◌, if◌then◌else◌, Outcome, ok, ◌>>=◌, u32,
}
use crisp.Array.{Array, update, load}
use crisp.Vm.Memory.{read_word}
use crisp.Vm.State.{Vm}
use crisp.Vm.Interrupts.{Check, failed, raise_interrupt, check_interrupts}
use crisp.Vm.Mmu.{translate_address, invalid_address}
use crisp.Vm.Instruction.{Instruction}
use crisp.Vm.Execute.{execute}

-- What `c32_vm_step` returns: 0 and -1.
pub data Status : Type 0 where
  success error : Status

-- The eight bytes at `phys_pc`.
unfoldable pub decode : Array → ℕ → Outcome Instruction
decode m phys_pc = do
  opcode ← load m phys_pc
  rs ← load m (phys_pc + 1)
  rt ← load m (phys_pc + 2)
  rd ← load m (phys_pc + 3)
  imm ← read_word m (phys_pc + 4)
  ok (record { opcode = opcode; rs = rs; rt = rt; rd = rd; immediate = imm })

-- Execution of a fetched instruction: the PC moves on, and R0 is cleared afterwards.
unfoldable pub perform : Instruction → Vm → Outcome (Status × Vm)
perform i vm = do
  vm' ← execute i (record vm { pc = u32 (vm.pc + 8) })
  ok (success, record vm' { regs = update vm'.regs 0 0 })

unfoldable pub fetch : ℕ × Vm → Outcome (Status × Vm)
fetch (phys_pc, vm) =
    if phys_pc == invalid_address
    then ok (error, vm)
    else if ltb vm.memory_size (u32 (phys_pc + 8))
    then ok (error, record vm { running = false })
    else (do i ← decode vm.memory phys_pc; perform i vm)

-- The instruction cycle behind the interrupt check.
unfoldable pub cycle : Check × Vm → Outcome (Status × Vm)
cycle (failed, vm) = ok (error, vm)
cycle (_, vm) =
    if not (bit_and vm.pc 0x7 == 0)
    then ok (error, raise_interrupt vm 2)
    else translate_address vm vm.pc false true >>= fetch

unfoldable pub step : Vm → Outcome (Status × Vm)
step vm = check_interrupts vm >>= cycle
