-- ===== src/Vm/State.antt =====
-- `c32_vm_t` of include/c32_vm.h, and `c32_vm_init` and `c32_vm_reset` of src/vm/c32_vm.c.
use crisp.Base.{ℕ, zero, suc, Bool, true, false, Outcome, ok, fault, ltb, if◌then◌else◌}
use crisp.Array.{Array, update}

-- The anonymous struct `interrupts`. `pending` holds the 32 bytes of the bitmap.
pub record Interrupts : Type 0 where
  pub enabled : Bool
  pub pending : ℕ → ℕ
  pub saved_pc : ℕ
  pub saved_regs_addr : ℕ

-- `regs` holds the 32 registers; `get_reg` and `set_reg` check the index. The flags take no other
-- values than 0 and 1. `memory` is the buffer that the caller hands over, with its true size, and
-- `memory_size` the size that the caller states.
pub record Vm : Type 0 where
  pub regs : ℕ → ℕ
  pub pc : ℕ
  pub memory : Array
  pub memory_size : ℕ
  pub running : Bool
  pub kernel_mode : Bool
  pub paging_enabled : Bool
  pub page_table_base : ℕ
  pub num_pages : ℕ
  pub interrupts : Interrupts

-- `vm->regs[i]`, and an assignment to it. An index from 32 on is outside the array.
unfoldable pub get_reg : Vm → ℕ → Outcome ℕ
get_reg vm i = if ltb i 32 then ok (vm.regs i) else fault

unfoldable pub set_reg : Vm → ℕ → ℕ → Outcome Vm
set_reg vm i v = if ltb i 32 then ok (record vm { regs = update vm.regs i v }) else fault

-- `for (i = 0; i < n; i++) a[i] = 0;`
unfoldable pub clear : ℕ → (ℕ → ℕ) → ℕ → ℕ
clear zero a = a
clear (suc n) a = update (clear n a) n 0

unfoldable pub vm_init : Vm → Array → ℕ → Vm
vm_init vm memory memory_size = record {
  regs = clear 32 vm.regs;
  pc = 0;
  memory = memory;
  memory_size = memory_size;
  running = false;
  kernel_mode = true;
  paging_enabled = false;
  page_table_base = 0;
  num_pages = 0;
  interrupts = record {
    enabled = false;
    pending = clear 32 vm.interrupts.pending;
    saved_pc = 0;
    saved_regs_addr = 0;
  };
}

unfoldable pub vm_reset : Vm → Vm
vm_reset vm = record vm {
  regs = clear 32 vm.regs;
  pc = 0;
  running = false;
  kernel_mode = true;
  paging_enabled = false;
}
