-- ===== src/Vm/Interrupts.antt =====
-- The interrupt functions of src/vm/c32_vm.c. Interrupt numbers are `uint8_t`, below 256.
pub mod Pending
pub mod Priority
pub mod Frame
pub mod Return
pub mod Service
pub mod Vector
use crisp.Base.{
  ℕ, zero, suc, ◌+◌, ◌-◌, ◌*◌, ◌/◌, ◌%◌, ◌^◌, bit_and, bit_or, Bool, true, false, not, ltb, leb,
  ◌==◌, if◌then◌else◌, Outcome, ok, ◌>>=◌, u8, u32, sub32,
}
use crisp.Array.{Array, update}
use crisp.Vm.Memory.{read_word, write_word}
use crisp.Vm.State.{Vm}

unfoldable pub raise_interrupt : Vm → ℕ → Vm
raise_interrupt vm int_num =
    let byte_idx = int_num / 8 in
    let bit_idx = int_num % 8 in
    if ltb byte_idx 32
    then record vm {
      interrupts = record (vm.interrupts) {
        pending =
            update vm.interrupts.pending byte_idx
              (u8 (bit_or (vm.interrupts.pending byte_idx) (2 ^ bit_idx)));
      };
    }
    else vm

unfoldable pub set_interrupt_handler : Vm → ℕ → ℕ → Outcome Vm
set_interrupt_handler vm int_num handler_addr =
    let ivt_offset = int_num * 8 in
    if leb (ivt_offset + 4) vm.memory_size
    then (do
      memory ← write_word vm.memory ivt_offset handler_addr
      ok (record vm { memory = memory }))
    else ok vm

-- `vm->interrupts.pending[byte_idx] & (1 << bit_idx)`
unfoldable pub is_pending : Vm → ℕ → Bool
is_pending vm int_num = not (bit_and (vm.interrupts.pending (int_num / 8)) (2 ^ (int_num % 8)) == 0)

-- `&= ~(1 << bit_idx)` on a byte
unfoldable pub clear_pending : Vm → ℕ → Vm
clear_pending vm int_num = record vm {
  interrupts = record (vm.interrupts) {
    pending =
        update vm.interrupts.pending (int_num / 8)
          (bit_and (vm.interrupts.pending (int_num / 8)) (255 - 2 ^ (int_num % 8)));
  };
}

-- `for (; i < 32; i++) c32_write_word(vm->memory + addr + i * 4, vm->regs[i]);`
unfoldable pub save_regs : (regs : ℕ → ℕ) (addr : ℕ) (left i : ℕ) → Array → Outcome Array
save_regs regs addr zero i m = ok m
save_regs regs addr (suc left) i m = do
  m' ← write_word m (addr + i * 4) (regs i)
  save_regs regs addr left (i + 1) m'

-- What `check_interrupts` returns: 1, 0 and -1.
pub data Check : Type 0 where
  dispatched idle failed : Check

-- The registers are saved only where the frame ends within the memory; the sum is a `uint32_t`.
unfoldable pub save_frame : Vm → Outcome Vm
save_frame vm =
    let addr = vm.interrupts.saved_regs_addr in
    if leb (u32 (addr + 128)) vm.memory_size
    then (do m ← save_regs vm.regs addr 32 0 vm.memory; ok (record vm { memory = m }))
    else ok vm

-- The last part of a dispatch: interrupts off, R4, and the handler from the vector table.
unfoldable pub enter_handler : Vm → ℕ → Outcome (Check × Vm)
enter_handler vm int_num =
    let ivt_offset = int_num * 8 in
    let entered = record vm {
      interrupts = record (vm.interrupts) { enabled = false };
      regs = update vm.regs 4 int_num;
    } in
    if leb (ivt_offset + 4) vm.memory_size
    then (do
      handler_addr ← read_word vm.memory ivt_offset
      ok (dispatched, record entered { pc = handler_addr }))
    else ok (failed, record entered { running = false })

-- The first part: the pending bit, the saved PC, kernel mode and 128 bytes of stack.
unfoldable pub push_frame : Vm → ℕ → Vm
push_frame vm int_num =
    let cleared = clear_pending vm int_num in
    let sp = sub32 (vm.regs 29) 128 in
    record cleared {
      interrupts = record (cleared.interrupts) { saved_pc = vm.pc; saved_regs_addr = sp };
      kernel_mode = true;
      regs = update vm.regs 29 sp;
    }

unfoldable pub dispatch : Vm → ℕ → Outcome (Check × Vm)
dispatch vm int_num = do saved ← save_frame (push_frame vm int_num); enter_handler saved int_num

-- `for (; int_num < 255; int_num++)`
unfoldable pub scan : ℕ → ℕ → Vm → Outcome (Check × Vm)
scan zero int_num vm = ok (idle, vm)
scan (suc left) int_num vm =
    let rest = scan left (int_num + 1) vm in
    if is_pending vm int_num then dispatch vm int_num else rest

unfoldable pub check_interrupts : Vm → Outcome (Check × Vm)
check_interrupts vm = if not vm.interrupts.enabled then ok (idle, vm) else scan 255 0 vm
