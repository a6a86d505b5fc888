-- ===== src/Vm/Execute/Memory.antt =====
-- The load and store cases of `c32_vm_step`.
pub mod Words
use crisp.Base.{
  ℕ, ◌+◌, Bool, true, false, not, ◌&&◌, leb, ◌==◌, if◌then◌else◌, Option, none, some, Outcome, ok,
  ◌>>=◌, u8, u16, u32,
}
use crisp.Array.{Array}
use crisp.Vm.Memory.{read_word, read_half, read_byte, write_word, write_half, write_byte}
use crisp.Vm.State.{Vm, get_reg, set_reg}
use crisp.Vm.Mmu.{translate_address, invalid_address}
use crisp.Vm.Instruction.{Instruction}
use crisp.Vm.Opcode.{Memory}
use crisp.Vm.Alu.{int16, int8, word}

-- The shared start of the loads and stores: the physical address, if the access is allowed and
-- `phys_addr + n <= memory_size` in 32 bits.
unfoldable pub data_address : Bool → ℕ → Instruction → Vm → Outcome (Option ℕ × Vm)
data_address is_write n i vm = do
  a ← get_reg vm i.rs
  let addr = u32 (a + i.immediate)
  (phys_addr, vm') ← translate_address vm addr is_write false
  if not (phys_addr == invalid_address) && leb (u32 (phys_addr + n)) vm'.memory_size
      then ok (some phys_addr, vm')
      else ok (none, vm')

unfoldable pub load_with : (Array → ℕ → Outcome ℕ) → Instruction → Option ℕ × Vm → Outcome Vm
load_with read i (none, vm) = ok vm
load_with read i (some phys_addr, vm) = do v ← read vm.memory phys_addr; set_reg vm i.rt v

unfoldable pub store_with :
    (Array → ℕ → ℕ → Outcome Array) → Instruction → Option ℕ × Vm → Outcome Vm
store_with write i (none, vm) = ok vm
store_with write i (some phys_addr, vm) = do
  v ← get_reg vm i.rt
  m ← write vm.memory phys_addr v
  ok (record vm { memory = m })

-- The signed loads sign-extend; SH and SB cut the register off.
unfoldable pub exec_memory : Memory → Instruction → Vm → Outcome Vm
exec_memory Memory.lw i vm = data_address false 4 i vm >>= load_with read_word i
exec_memory Memory.lh i vm =
    data_address false 2 i vm >>= load_with (λ m a. read_half m a >>= λ h. ok (word (int16 h))) i
exec_memory Memory.lhu i vm = data_address false 2 i vm >>= load_with read_half i
exec_memory Memory.lb i vm =
    data_address false 1 i vm >>= load_with (λ m a. read_byte m a >>= λ b. ok (word (int8 b))) i
exec_memory Memory.lbu i vm = data_address false 1 i vm >>= load_with read_byte i
exec_memory Memory.sw i vm = data_address true 4 i vm >>= store_with write_word i
exec_memory Memory.sh i vm =
    data_address true 2 i vm >>= store_with (λ m a v. write_half m a (u16 v)) i
exec_memory Memory.sb i vm =
    data_address true 1 i vm >>= store_with (λ m a v. write_byte m a (u8 v)) i
