-- ===== src/Vm/Invariant/Mmu.antt =====
-- Well-formed states and `translate_address`.
use crisp.Base.{
  ℕ, ◌+◌, ◌*◌, ◌/◌, ◌^◌, ◌≡◌, refl, arith, Bool, not, leb, ltb, ◌==◌, ◌&&◌, bit_and, u32,
}
use crisp.Base.Bits.{and_lt, or_lt}
use crisp.Vm.State.{Vm}
use crisp.Vm.Mmu.{page_fault, apply_entry, translate_address}
use crisp.Vm.Invariant.{
  IsWord, Fits, Post, ends, Post-bind, Post-if, raise_interrupt-Fits, raise_interrupt-regs,
}
use crisp.Vm.Invariant.Memory.{read_word-IsWord}

-- What a translation gives: an address, and the state, of which a fault changes the bitmap only.
abbrev pub Translated : Vm → ℕ × Vm → Type 0
Translated vm t = IsWord t.0 × Fits t.1 × (t.1.regs ≡ vm.regs)

module _ {vm : Vm} (f : Fits vm) where
  page_fault-Translated : Post (Translated vm) (page_fault vm)
  unfolding page_fault
  page_fault-Translated = ends (omega arith, raise_interrupt-Fits f 8, raise_interrupt-regs vm 8)

  apply_entry-Translated :
      (pte offset : ℕ) (w x : Bool)
      → IsWord pte
      → IsWord offset
      → Post (Translated vm) (apply_entry vm pte offset w x)
  unfolding apply_entry
  apply_entry-Translated pte offset w x hp ho =
      Post-if (bit_and pte 1 == 0) (λ _. page_fault-Translated)
        (λ _.
          Post-if (bit_and (pte / 2 ^ 3) 1 == 0) (λ _. page_fault-Translated)
            (λ _.
              Post-if (w && (bit_and (pte / 2 ^ 1) 1 == 0)) (λ _. page_fault-Translated)
                (λ _.
                  Post-if (x && (bit_and (pte / 2 ^ 2) 1 == 0)) (λ _. page_fault-Translated)
                    (λ _. ends (or_lt 32 _ offset (and_lt 32 pte 0xFFFFF000 hp) ho, f, refl)))))

  pub translate_address-Translated :
      (vaddr : ℕ) (w x : Bool)
      → IsWord vaddr
      → Post (Translated vm) (translate_address vm vaddr w x)
  unfolding translate_address
  translate_address-Translated vaddr w x h =
      let entry = u32 (vm.page_table_base + u32 (vaddr / 2 ^ 12 * 4)) in
      Post-if vm.kernel_mode (λ _. ends (h, f, refl))
        (λ _.
          Post-if (not vm.paging_enabled) (λ _. ends (h, f, refl))
            (λ _.
              Post-if (leb vm.num_pages (vaddr / 2 ^ 12)) (λ _. page_fault-Translated)
                (λ _.
                  Post-if (ltb vm.memory_size (u32 (entry + 4))) (λ _. page_fault-Translated)
                    (λ _.
                      Post-bind (read_word-IsWord vm.memory f.bytes entry)
                        λ pte hp. apply_entry-Translated pte _ w x hp (and_lt 32 vaddr 0x0FFF h)))))
