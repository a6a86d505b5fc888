-- ===== src/Vm/Mmu.antt =====
-- `translate_address` of src/vm/c32_vm.c.
pub mod PageTable
use crisp.Base.{
  ℕ, ◌+◌, ◌*◌, ◌/◌, ◌^◌, bit_and, bit_or, Bool, not, ◌&&◌, ltb, leb, ◌==◌, if◌then◌else◌, Outcome,
  ok, ◌>>=◌, u32,
}
use crisp.Vm.Memory.{read_word}
use crisp.Vm.State.{Vm}
use crisp.Vm.Interrupts.{raise_interrupt}

-- 0xFFFFFFFF, what a page fault returns.
abbrev pub invalid_address : ℕ
invalid_address = 0xFFFFFFFF

-- Interrupt 8, and the marker.
unfoldable pub page_fault : Vm → Outcome (ℕ × Vm)
page_fault vm = ok (invalid_address, raise_interrupt vm 8)

-- The checks on a page table entry, and the address that it gives.
unfoldable pub apply_entry : Vm → ℕ → ℕ → Bool → Bool → Outcome (ℕ × Vm)
apply_entry vm pte page_offset is_write is_exec =
    let phys_page = bit_and pte 0xFFFFF000 in
    let user = bit_and (pte / 2 ^ 3) 1 in
    let executable = bit_and (pte / 2 ^ 2) 1 in
    let writable = bit_and (pte / 2 ^ 1) 1 in
    let valid = bit_and pte 1 in
    if valid == 0
    then page_fault vm
    else if user == 0
    then page_fault vm
    else if is_write && (writable == 0)
    then page_fault vm
    else if is_exec && (executable == 0)
    then page_fault vm
    else ok (bit_or phys_page page_offset, vm)

unfoldable pub translate_address : Vm → ℕ → Bool → Bool → Outcome (ℕ × Vm)
translate_address vm vaddr is_write is_exec =
    if vm.kernel_mode
    then ok (vaddr, vm)
    else if not vm.paging_enabled
    then ok (vaddr, vm)
    else let page_num = vaddr / 2 ^ 12 in
      let page_offset = bit_and vaddr 0x0FFF in
      if leb vm.num_pages page_num
      then page_fault vm
      else let pte_addr = u32 (vm.page_table_base + u32 (page_num * 4)) in
        if ltb vm.memory_size (u32 (pte_addr + 4)) then page_fault vm else (do
          pte ← read_word vm.memory pte_addr
          apply_entry vm pte page_offset is_write is_exec)
