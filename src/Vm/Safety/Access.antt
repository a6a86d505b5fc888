-- ===== src/Vm/Safety/Access.antt =====
-- Accesses of the guest that are free of undefined behaviour.
use crisp.Base.{
  ℕ, ◌+◌, ◌*◌, ◌/◌, ◌^◌, ◌≤◌, ◌<◌, ◌≡◌, ◌⊎◌, inl, inr, ◌==◌, leb, ltb, not, ◌&&◌, bit_and, refl,
  arith, Bool, Outcome, ok, u32, Returns, returns,
}
use crisp.Base.Bits.{and_lt, and_mask, or_lt}
use crisp.Base.Runs.{Returns-if}
use crisp.Array.{Array, update, load-ok, store-ok}
use crisp.Vm.Memory.{
  little_endian, read_word, read_half, read_byte, write_word, write_half, write_byte,
}
use crisp.Vm.Memory.Laws.{
  AreBytes, read_word_on-word_at, read_half_on-half_at, write_word_on-with_word,
  write_half_on-with_half,
}
use crisp.Vm.State.{Vm, get_reg, set_reg}
use crisp.Vm.Mmu.{invalid_address, page_fault, apply_entry, translate_address}
use crisp.Vm.Invariant.{Fits}
use crisp.Vm.Safety.{IsPlaced}

-- A run without undefined behaviour.
abbrev pub Runs {ℓ} : {A : Type ℓ} → Outcome A → Type ℓ
Runs m = Returns (λ a. Unit {0}) m

pub get_reg-ok : (vm : Vm) (i : ℕ) → i < 32 → get_reg vm i ≡ ok (vm.regs i)
unfolding get_reg
get_reg-ok vm i h = ground arith

pub set_reg-ok :
    (vm : Vm) (i v : ℕ) → i < 32 → set_reg vm i v ≡ ok (record vm { regs = update vm.regs i v })
unfolding set_reg
set_reg-ok vm i v h = ground arith

-- A translation fails, or it leaves the machine alone and gives the address itself or one in the
-- lower half.
pub record Reached (vm : Vm) (vaddr : ℕ) (t : ℕ × Vm) : Type 0 where
  pub machine : (t.0 ≡ invalid_address) ⊎ (t.1 ≡ vm)
  pub address : (t.0 ≡ invalid_address) ⊎ ((t.0 ≡ vaddr) ⊎ (t.0 < 2 ^ 31))

module _ (vm : Vm) (f : Fits vm) (placed : IsPlaced vm) (vaddr : ℕ) where
  page_fault-Reached : Returns (Reached vm vaddr) (page_fault vm)
  unfolding page_fault
  page_fault-Reached = returns (record { machine = inl refl; address = inl refl })

  apply_entry-Reached :
      (pte : ℕ) (w x : Bool)
      → pte < 2 ^ 31
      → Returns (Reached vm vaddr) (apply_entry vm pte (bit_and vaddr 0x0FFF) w x)
  unfolding apply_entry
  apply_entry-Reached pte w x small =
      Returns-if (bit_and pte 1 == 0) (λ _. page_fault-Reached)
        (λ _.
          Returns-if (bit_and (pte / 2 ^ 3) 1 == 0) (λ _. page_fault-Reached)
            (λ _.
              Returns-if (w && (bit_and (pte / 2 ^ 1) 1 == 0)) (λ _. page_fault-Reached)
                (λ _.
                  Returns-if (x && (bit_and (pte / 2 ^ 2) 1 == 0)) (λ _. page_fault-Reached)
                    (λ _. returns (record {
                      machine = inr refl;
                      address = inr (inr (or_lt 31 _ _ (and_lt 31 pte 0xFFFFF000 small) offset));
                    })))))
    where
      offset : bit_and vaddr 0x0FFF < 2 ^ 31
      offset = ground (arith, and_mask 12 vaddr)

  pub translate_address-Reached :
      (w x : Bool) → Returns (Reached vm vaddr) (translate_address vm vaddr w x)
  unfolding translate_address read_word
  translate_address-Reached w x =
      let direct : Reached vm vaddr (vaddr, vm) = record {
        machine = inr refl;
        address = inr (inl refl);
      } in
      Returns-if vm.kernel_mode (λ _. returns direct)
        (λ _.
          Returns-if (not vm.paging_enabled) (λ _. returns direct)
            (λ _.
              Returns-if (leb vm.num_pages (vaddr / 2 ^ 12)) (λ _. page_fault-Reached)
                (λ present.
                  let below : vaddr / 2 ^ 12 < vm.num_pages = ground arith in
                  let straight : u32 (vm.page_table_base + u32 (vaddr / 2 ^ 12 * 4))
                      ≡ vm.page_table_base + vaddr / 2 ^ 12 * 4 =
                    omega (arith, placed.table, f.size) in
                  rw straight (
                    Returns-if
                      (ltb vm.memory_size (u32 (vm.page_table_base + vaddr / 2 ^ 12 * 4 + 4)))
                      (λ _. page_fault-Reached)
                      (λ _.
                        rw
                          (read_word_on-word_at little_endian vm.memory
                            (vm.page_table_base + vaddr / 2 ^ 12 * 4)
                            (omega (arith, placed.table, f.allocated)) f.bytes)
                          (apply_entry-Reached _ w x (placed.entries (vaddr / 2 ^ 12) below)))))))

-- The accesses to the memory of the machine.
module _ (m : Array) (bytes : AreBytes m) (a : ℕ) where
  pub read_word-Runs : a + 4 ≤ m.size → Runs (read_word m a)
  unfolding read_word
  read_word-Runs h = rw (read_word_on-word_at little_endian m a h bytes) (returns tt)

  pub read_half-Runs : a + 2 ≤ m.size → Runs (read_half m a)
  unfolding read_half
  read_half-Runs h = rw (read_half_on-half_at little_endian m a h bytes) (returns tt)

  pub read_byte-Runs : a < m.size → Runs (read_byte m a)
  unfolding read_byte
  read_byte-Runs h = rw (load-ok m a h) (returns tt)

  pub write_word-Runs : (v : ℕ) → a + 4 ≤ m.size → v < 2 ^ 32 → Runs (write_word m a v)
  unfolding write_word
  write_word-Runs v h hv = rw (write_word_on-with_word little_endian m a v h hv) (returns tt)

  pub write_half-Runs : (v : ℕ) → a + 2 ≤ m.size → v < 2 ^ 16 → Runs (write_half m a v)
  unfolding write_half
  write_half-Runs v h hv = rw (write_half_on-with_half little_endian m a v h hv) (returns tt)

  pub write_byte-Runs : (v : ℕ) → a < m.size → Runs (write_byte m a v)
  unfolding write_byte
  write_byte-Runs v h = rw (store-ok m a v h) (returns tt)
