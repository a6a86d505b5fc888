-- ===== src/Vm/Execute/Memory/Words.antt =====
-- LW and SW of `c32_vm_step`, and a load after a store.
use crisp.Base.{
  ℕ, ◌+◌, ◌≤◌, ◌<◌, ◌≡◌, refl, arith, Bool, true, false, not, ◌&&◌, leb, ◌==◌, some, ok, u32,
  ltb-eq-true,
}
use crisp.Array.{update}
use crisp.Vm.Memory.{little_endian, read_word, write_word}
use crisp.Vm.Memory.Laws.{word_at, with_word, read_word_on-word_at, write_word_on-with_word}
use crisp.Vm.State.{Vm, get_reg, set_reg}
use crisp.Vm.Mmu.{translate_address, invalid_address}
use crisp.Vm.Instruction.{Instruction}
use crisp.Vm.Opcode.{Memory}
use crisp.Vm.Execute.Memory.{data_address, load_with, store_with, exec_memory}
use crisp.Vm.Invariant.{Fits}

-- The address that a load or store computes.
abbrev pub effective : Instruction → Vm → ℕ
effective i vm = u32 (vm.regs i.rs + i.immediate)

module _ (i : Instruction) (vm : Vm) (f : Fits vm) (rs : i.rs < 32) (rt : i.rt < 32) (p : ℕ) where
  data_address-some :
      (w : Bool) (n : ℕ)
      → translate_address vm (effective i vm) w false ≡ ok (p, vm)
      → 0 < n
      → p + n ≤ vm.memory_size
      → data_address w n i vm ≡ ok (some p, vm)
  unfolding data_address get_reg
  data_address-some w n e positive room = rw (ltb-eq-true rs, e, inside) refl
    where
      inside : (not (p == invalid_address) && leb (u32 (p + n)) vm.memory_size) ≡ true
      inside = ground (arith, f.size)

  -- If the effective address of a store translates to `p` without a page fault, and the word at
  -- `p` lies inside the memory, then SW writes the register `rt` there, and does nothing else.
  pub exec_memory-sw :
      translate_address vm (effective i vm) true false ≡ ok (p, vm)
      → p + 4 ≤ vm.memory_size
      → exec_memory Memory.sw i vm
        ≡ ok (record vm {
          memory = record (vm.memory) { at = with_word vm.memory.at p (vm.regs i.rt) };
        })
  unfolding exec_memory store_with get_reg write_word
  exec_memory-sw e room =
      rw
        (
          data_address-some true 4 e (omega arith) room,
          ltb-eq-true rt,
          write_word_on-with_word little_endian vm.memory p (vm.regs i.rt)
              (omega (arith, f.allocated)) (f.regs i.rt rt),
        )
        refl

  -- If the effective address of a load translates to `p` without a page fault, and the word at
  -- `p` lies inside the memory, then LW loads it into the register `rt`, and does nothing else.
  pub exec_memory-lw :
      translate_address vm (effective i vm) false false ≡ ok (p, vm)
      → p + 4 ≤ vm.memory_size
      → exec_memory Memory.lw i vm
        ≡ ok (record vm { regs = update vm.regs i.rt (word_at vm.memory p) })
  unfolding exec_memory load_with set_reg read_word
  exec_memory-lw e room =
      rw
        (
          data_address-some false 4 e (omega arith) room,
          read_word_on-word_at little_endian vm.memory p (omega (arith, f.allocated)) f.bytes,
          ltb-eq-true rt,
        )
        refl
