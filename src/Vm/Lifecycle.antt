-- ===== src/Vm/Lifecycle.antt =====
-- The states that `c32_vm_init` and `c32_vm_reset` set up.
use crisp.Base.{ℕ, zero, suc, ◌^◌, ◌≤◌, ◌<◌, ◌≡◌, arith, ltb, if◌then◌else◌}
use crisp.Array.{Array}
use crisp.Vm.Memory.Laws.{AreBytes}
use crisp.Vm.State.{Vm, clear, vm_init, vm_reset}
use crisp.Vm.Invariant.{IsValid}

clear_lem : (n : ℕ) (a : ℕ → ℕ) (i : ℕ) → clear n a i ≡ (if ltb i n then 0 else a i)
unfolding clear
clear_lem zero a i = ground arith
clear_lem (suc n) a i = ground (arith, clear_lem n a i)

clear-zero : (n : ℕ) (a : ℕ → ℕ) (i : ℕ) → i < n → clear n a i ≡ 0
clear-zero n a i h = ground (arith, clear_lem n a i)

-- Whatever the structure held before, `c32_vm_init` on a buffer of bytes of at least the stated
-- size, which is a word, gives a well-formed machine.
pub vm_init-IsValid :
    (vm : Vm) (memory : Array) (memory_size : ℕ)
    → AreBytes memory
    → memory_size < 2 ^ 32
    → memory_size ≤ memory.size
    → IsValid (vm_init vm memory memory_size)
unfolding vm_init
vm_init-IsValid vm memory memory_size bytes word room = record {
  fits = record {
    regs = λ i h. ground (arith, clear-zero 32 vm.regs i h);
    pc = omega arith;
    bytes = bytes;
    size = word;
    allocated = room;
    table = omega arith;
    pages = omega arith;
    pending = λ i h. ground (arith, clear-zero 32 vm.interrupts.pending i h);
    saved_pc = omega arith;
    saved_regs_addr = omega arith;
  };
  zero_reg = clear-zero 32 vm.regs 0 (omega arith);
}

-- `c32_vm_reset` keeps a well-formed machine well formed.
pub vm_reset-IsValid : (vm : Vm) → IsValid vm → IsValid (vm_reset vm)
unfolding vm_reset
vm_reset-IsValid vm v = record {
  fits = record {
    regs = λ i h. ground (arith, clear-zero 32 vm.regs i h);
    pc = omega arith;
    bytes = v.fits.bytes;
    size = v.fits.size;
    allocated = v.fits.allocated;
    table = v.fits.table;
    pages = v.fits.pages;
    pending = v.fits.pending;
    saved_pc = v.fits.saved_pc;
    saved_regs_addr = v.fits.saved_regs_addr;
  };
  zero_reg = clear-zero 32 vm.regs 0 (omega arith);
}
