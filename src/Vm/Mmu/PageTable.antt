-- ===== src/Vm/Mmu/PageTable.antt =====
-- Address translation against page tables: what an entry allows and where it leads, in arithmetic.
use crisp.Base.{
  ℕ, ◌+◌, ◌*◌, ◌/◌, ◌%◌, ◌^◌, ◌≤◌, ◌<◌, ◌≡◌, ap, ◌∙◌, arith, Bool, true, false, not, ◌&&◌, ◌||◌,
  leb, ltb, ◌==◌, if◌then◌else◌, Option, none, some, Outcome, ok, bit_and, u32, Bool-cases, inl,
  inr, ◌>>=◌, ltb-eq-true, ltb-eq-false,
}
use crisp.Base.Bits.{and_mask, and_field, or_fields}
use crisp.Vm.Memory.{little_endian, read_word}
use crisp.Vm.Memory.Laws.{word_at, word_at-lt, read_word_on-word_at}
use crisp.Vm.State.{Vm}
use crisp.Vm.Interrupts.{raise_interrupt}
use crisp.Vm.Mmu.{invalid_address, page_fault, apply_entry, translate_address}
use crisp.Vm.Invariant.{Fits}

-- Bit `k` of an entry.
abbrev pub flag : ℕ → ℕ → Bool
flag pte k = pte / 2 ^ k % 2 == 1

-- Valid and accessible to the user, and writable or executable where the access wants it.
unfoldable pub allows : ℕ → Bool → Bool → Bool
allows pte is_write is_exec =
    flag pte 0 && flag pte 3 && (not is_write || flag pte 1) && (not is_exec || flag pte 2)

-- The entry of a virtual address.
abbrev pub entry : Vm → ℕ → ℕ
entry vm vaddr = word_at vm.memory (vm.page_table_base + vaddr / 2 ^ 12 * 4)

-- The physical address of a virtual one in user mode, if the page table allows the access.
unfoldable pub walk : Vm → ℕ → Bool → Bool → Option ℕ
walk vm vaddr is_write is_exec =
    if ltb (vaddr / 2 ^ 12) vm.num_pages && allows (entry vm vaddr) is_write is_exec
    then some (entry vm vaddr / 2 ^ 12 * 2 ^ 12 + vaddr % 2 ^ 12)
    else none

-- A refused access raises interrupt 8 and gives the marker.
unfoldable pub answer : Vm → Option ℕ → ℕ × Vm
answer vm none = (invalid_address, raise_interrupt vm 8)
answer vm (some phys_addr) = (phys_addr, vm)

apply_entry-answer :
    (vm : Vm) (pte vaddr : ℕ) (w x : Bool)
    → pte < 2 ^ 32
    → apply_entry vm pte (bit_and vaddr 0x0FFF) w x
      ≡ ok (
          answer vm
            (if allows pte w x then some (pte / 2 ^ 12 * 2 ^ 12 + vaddr % 2 ^ 12) else none))
unfolding apply_entry page_fault answer allows
apply_entry-answer vm pte vaddr w x h =
    rw
      (
        and_mask 1 pte,
        and_mask 1 (pte / 2 ^ 3),
        and_mask 1 (pte / 2 ^ 1),
        and_mask 1 (pte / 2 ^ 2),
        and_mask 12 vaddr,
        and_field 12 20 pte,
        or_fields 12 (pte / 2 ^ 12 % 2 ^ 20) (vaddr % 2 ^ 12) (omega arith),
      )
      (ground arith)

module _ (vm : Vm) (vaddr : ℕ) (w x : Bool) where
  abbrev page : ℕ
  page = vaddr / 2 ^ 12

  -- The translation behind the tests of the mode, with the address of the entry as a parameter.
  abbrev paged : ℕ → Outcome (ℕ × Vm)
  paged pte_addr =
      if leb vm.num_pages page
      then page_fault vm
      else if ltb vm.memory_size (u32 (pte_addr + 4))
      then page_fault vm
      else (read_word vm.memory pte_addr >>= λ pte. apply_entry vm pte (bit_and vaddr 0x0FFF) w x)

  abbrev unmapped : Outcome (ℕ × Vm)
  unmapped = ok (vaddr, vm)

  translate_address-paged :
      vm.kernel_mode ≡ false
      → vm.paging_enabled ≡ true
      → translate_address vm vaddr w x ≡ paged (u32 (vm.page_table_base + u32 (page * 4)))
  unfolding translate_address
  translate_address-paged user paging =
      let body = paged (u32 (vm.page_table_base + u32 (page * 4))) in
      ap (λ mode. if mode then unmapped else (if not vm.paging_enabled then unmapped else body))
        user
      ∙ ap (λ on. if not on then unmapped else body) paging

  paged-walk :
      Fits vm
      → vm.page_table_base + vm.num_pages * 4 ≤ vm.memory_size
      → (pte_addr : ℕ) → (page < vm.num_pages → pte_addr ≡ vm.page_table_base + page * 4)
      → paged pte_addr ≡ ok (answer vm (walk vm vaddr w x))
  unfolding page_fault answer walk read_word
  paged-walk f room pte_addr located = elim (Bool-cases (leb vm.num_pages page)) [
    | inl e ↦ rw (e, ltb-eq-false {a = page} {b = vm.num_pages} (ground arith))
    | inr e ↦
        let inside : page < vm.num_pages = ground arith in
        rw
          (
            located inside,
            e,
            ltb-eq-true inside,
            ltb-eq-false {a = vm.memory_size} {b = u32 (vm.page_table_base + page * 4 + 4)}
                (omega (arith, f.size)),
            read_word_on-word_at little_endian vm.memory (vm.page_table_base + page * 4)
                (omega (arith, f.allocated)) f.bytes,
          )
          (apply_entry-answer vm (entry vm vaddr) vaddr w x (word_at-lt vm.memory f.bytes _))
  ]

  -- In a well-formed machine in user mode with paging on, whose page table lies inside the memory,
  -- `translate_address` is the walk of the page table: the address where the walk leads, or, where
  -- it refuses the access, the marker with interrupt 8 raised.
  pub translate_address-walk :
      Fits vm
      → vm.kernel_mode ≡ false
      → vm.paging_enabled ≡ true
      → vm.page_table_base + vm.num_pages * 4 ≤ vm.memory_size
      → translate_address vm vaddr w x ≡ ok (answer vm (walk vm vaddr w x))
  translate_address-walk f user paging room =
      translate_address-paged user paging ∙ paged-walk f room _ (omega (arith, f.size))
