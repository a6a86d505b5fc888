-- ===== src/Tests/Guests.antt =====
-- Small machines that the tests run.
use crisp.Base.{ℕ, ◌^◌, ◌<◌, refl, arith, true, false, ◌==◌, if◌then◌else◌}
use crisp.Array.{Array}
use crisp.Vm.State.{Vm}
use crisp.Vm.Invariant.{Fits, IsValid}

abbrev pub buffer : (ℕ → ℕ) → Array
buffer at = record { size = 512; at = at }

-- A machine in kernel mode with its stack at the end of the buffer.
abbrev pub kernel : (ℕ → ℕ) → Vm
kernel at = record {
  regs = λ i. if i == 29 then 512 else 0;
  pc = 0;
  memory = buffer at;
  memory_size = 512;
  running = true;
  kernel_mode = true;
  paging_enabled = false;
  page_table_base = 0;
  num_pages = 0;
  interrupts = record {
    enabled = false;
    pending = λ i. if i == 0 then 8 else 0;
    saved_pc = 0;
    saved_regs_addr = 0;
  };
}

-- The same with interrupts enabled: number 3 is pending.
abbrev pub interrupted : (ℕ → ℕ) → Vm
interrupted at = record (kernel at) {
  interrupts = record ((kernel at).interrupts) { enabled = true };
}

-- User mode, with one page, whose entry is at 256.
abbrev pub user : (ℕ → ℕ) → Vm
user at = record (kernel at) {
  kernel_mode = false;
  paging_enabled = true;
  page_table_base = 256;
  num_pages = 1;
}

-- `addi R1, R0, 42`
abbrev pub addi_program : ℕ → ℕ
addi_program i = if i == 0 then 5 else if i == 2 then 1 else if i == 4 then 42 else 0

-- A page table entry that is valid, accessible to the user and executable.
abbrev pub one_page : ℕ → ℕ
one_page i = if i == 256 then 13 else 0

pub addi_program-AreBytes : (i : ℕ) → addi_program i < 2 ^ 8
addi_program-AreBytes i = ground arith

pub one_page-AreBytes : (i : ℕ) → one_page i < 2 ^ 8
one_page-AreBytes i = ground arith

module _ (at : ℕ → ℕ) (bytes : (i : ℕ) → at i < 2 ^ 8) where
  pub kernel-Fits : Fits (kernel at)
  kernel-Fits = record {
    regs = λ i h. ground arith;
    pc = omega arith;
    bytes = bytes;
    size = omega arith;
    allocated = omega arith;
    table = omega arith;
    pages = omega arith;
    pending = λ i h. ground arith;
    saved_pc = omega arith;
    saved_regs_addr = omega arith;
  }

  pub interrupted-Fits : Fits (interrupted at)
  interrupted-Fits = record {
    regs = kernel-Fits.regs;
    pc = omega arith;
    bytes = bytes;
    size = omega arith;
    allocated = omega arith;
    table = omega arith;
    pages = omega arith;
    pending = kernel-Fits.pending;
    saved_pc = omega arith;
    saved_regs_addr = omega arith;
  }

  pub user-Fits : Fits (user at)
  user-Fits = record {
    regs = kernel-Fits.regs;
    pc = omega arith;
    bytes = bytes;
    size = omega arith;
    allocated = omega arith;
    table = omega arith;
    pages = omega arith;
    pending = kernel-Fits.pending;
    saved_pc = omega arith;
    saved_regs_addr = omega arith;
  }

  pub kernel-IsValid : IsValid (kernel at)
  kernel-IsValid = record { fits = kernel-Fits; zero_reg = refl }

  pub interrupted-IsValid : IsValid (interrupted at)
  interrupted-IsValid = record { fits = interrupted-Fits; zero_reg = refl }
