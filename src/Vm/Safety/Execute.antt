-- ===== src/Vm/Safety/Execute.antt =====
-- Instructions that are free of undefined behaviour.
use crisp.Base.{
  ℕ, ◌+◌, ◌^◌, ◌≤◌, ◌<◌, ◌≡◌, inl, inr, ◌==◌, leb, not, ◌&&◌, ap, sym, arith, Bool, true, false,
  Option, none, some, Outcome, ◌>>=◌, u32, Returns, returns,
}
use mathlib.Core.Path.{subst}
use crisp.Base.Runs.{Returns-bind, Returns-if}
use crisp.Array.{Array}
use crisp.Vm.Memory.{read_word, read_half, read_byte, write_word}
use crisp.Vm.State.{Vm}
use crisp.Vm.Mmu.{invalid_address}
use crisp.Vm.Invariant.{Fits}
use crisp.Vm.Instruction.{Instruction}
use crisp.Vm.Opcode.{
  Opcode, arithmetic, logical, shift, comparison, memory, branch, jump, system, interrupt,
  privilege, special, Memory, opcode_of,
}
use crisp.Vm.Execute.{exec_opcode, exec_selected, execute}
use crisp.Vm.Execute.Memory.{data_address, load_with, store_with, exec_memory}
use crisp.Vm.Safety.{IsPlaced, HasRegisters, IsBenign}
use crisp.Vm.Safety.Access.{
  Runs, get_reg-ok, Reached, translate_address-Reached, read_word-Runs, read_half-Runs,
  read_byte-Runs, write_word-Runs, write_half-Runs, write_byte-Runs,
}
use crisp.Vm.Safety.Registers.{
  set_reg-Runs, exec_arithmetic-Runs, exec_logical-Runs, exec_shift-Runs, exec_comparison-Runs,
  exec_branch-Runs, exec_jump-Runs, exec_system-Runs, exec_interrupt-Runs, exec_privilege-Runs,
}

module _ (i : Instruction) (named : HasRegisters i) (vm : Vm) where
  -- Where an access of `n` bytes goes: nowhere, or inside the memory of the same machine.
  abbrev Inside : ℕ → Option ℕ × Vm → Type 0
  Inside n (none, vm') = Unit {0}
  Inside n (some p, vm') = (vm' ≡ vm) × (p + n ≤ vm.memory_size)

  load_with-Runs :
      (read : Array → ℕ → Outcome ℕ) (n : ℕ)
      → ((p : ℕ) → p + n ≤ vm.memory_size → Runs (read vm.memory p))
      → (r : Option ℕ × Vm) → Inside n r
      → Runs (load_with read i r)
  unfolding load_with
  load_with-Runs read n reads (none, vm') h = returns tt
  load_with-Runs read n reads (some p, vm') (same, h) =
      subst (λ v. Runs (load_with read i (some p, v))) (sym same)
        (Returns-bind (reads p h) λ v _. set_reg-Runs i named vm i.rt v named.rt)

  store_with-Runs :
      (write : Array → ℕ → ℕ → Outcome Array) (n : ℕ)
      → ((p : ℕ) → p + n ≤ vm.memory_size → Runs (write vm.memory p (vm.regs i.rt)))
      → (r : Option ℕ × Vm) → Inside n r
      → Runs (store_with write i r)
  unfolding store_with
  store_with-Runs write n writes (none, vm') h = returns tt
  store_with-Runs write n writes (some p, vm') (same, h) =
      subst (λ v. Runs (store_with write i (some p, v))) (sym same)
        (rw (get_reg-ok vm i.rt named.rt) (Returns-bind (writes p h) λ m _. returns tt))

  module _ (f : Fits vm) (placed : IsPlaced vm)
      (low : u32 (vm.regs i.rs + i.immediate) + 4 < 2 ^ 32) where
    Reached-Inside :
        (n p : ℕ) (vm' : Vm)
        → n ≤ 4
        → Reached vm (u32 (vm.regs i.rs + i.immediate)) (p, vm')
        → (not (p == invalid_address) && leb (u32 (p + n)) vm'.memory_size) ≡ true
        → Inside n (some p, vm')
    Reached-Inside n p vm' few r e = elim r.machine [
      | inl bad ↦ absurd (ground arith)
      | inr same ↦ (same, ground (arith, ap (λ v. v.memory_size) same, r.address))
    ]

    data_address-Returns : (w : Bool) (n : ℕ) → n ≤ 4 → Returns (Inside n) (data_address w n i vm)
    unfolding data_address
    data_address-Returns w n few = rw (get_reg-ok vm i.rs named.rs) (
        Returns-bind
          (translate_address-Reached vm f placed (u32 (vm.regs i.rs + i.immediate)) w false)
          λ (p, vm') r.
            Returns-if (not (p == invalid_address) && leb (u32 (p + n)) vm'.memory_size)
              (λ e. returns (Reached-Inside n p vm' few r e)) (λ _. returns tt))

    load-Runs :
        (read : Array → ℕ → Outcome ℕ) (n : ℕ)
        → n ≤ 4
        → ((p : ℕ) → p + n ≤ vm.memory_size → Runs (read vm.memory p))
        → Runs (data_address false n i vm >>= load_with read i)
    load-Runs read n few reads =
        Returns-bind (data_address-Returns false n few) (load_with-Runs read n reads)

    store-Runs :
        (write : Array → ℕ → ℕ → Outcome Array) (n : ℕ)
        → n ≤ 4
        → ((p : ℕ) → p + n ≤ vm.memory_size → Runs (write vm.memory p (vm.regs i.rt)))
        → Runs (data_address true n i vm >>= store_with write i)
    store-Runs write n few writes =
        Returns-bind (data_address-Returns true n few) (store_with-Runs write n writes)

    exec_memory-Runs : (op : Memory) → Runs (exec_memory op i vm)
    unfolding exec_memory
    exec_memory-Runs Memory.lw =
        load-Runs read_word 4 (omega arith)
          λ p h. read_word-Runs vm.memory f.bytes p (omega (arith, f.allocated))
    exec_memory-Runs Memory.lh = load-Runs _ 2 (omega arith) λ p h.
        Returns-bind (read_half-Runs vm.memory f.bytes p (omega (arith, f.allocated)))
          λ v _. returns tt
    exec_memory-Runs Memory.lhu =
        load-Runs read_half 2 (omega arith)
          λ p h. read_half-Runs vm.memory f.bytes p (omega (arith, f.allocated))
    exec_memory-Runs Memory.lb = load-Runs _ 1 (omega arith) λ p h.
        Returns-bind (read_byte-Runs vm.memory f.bytes p (omega (arith, f.allocated)))
          λ v _. returns tt
    exec_memory-Runs Memory.lbu =
        load-Runs read_byte 1 (omega arith)
          λ p h. read_byte-Runs vm.memory f.bytes p (omega (arith, f.allocated))
    exec_memory-Runs Memory.sw = store-Runs write_word 4 (omega arith) λ p h.
        write_word-Runs vm.memory f.bytes p _ (omega (arith, f.allocated)) (f.regs i.rt named.rt)
    exec_memory-Runs Memory.sh =
        store-Runs _ 2 (omega arith)
          λ p h. write_half-Runs vm.memory f.bytes p _ (omega (arith, f.allocated)) (omega arith)
    exec_memory-Runs Memory.sb =
        store-Runs _ 1 (omega arith)
          λ p h. write_byte-Runs vm.memory f.bytes p _ (omega (arith, f.allocated))

  module _ (f : Fits vm) (placed : IsPlaced vm) where
    exec_selected-Runs : (op : Option Opcode) → IsBenign op i vm → Runs (exec_selected op i vm)
    unfolding exec_selected exec_opcode
    exec_selected-Runs none b = returns tt
    exec_selected-Runs (some (special op)) b = returns tt
    exec_selected-Runs (some (arithmetic op)) b = exec_arithmetic-Runs i named vm op b
    exec_selected-Runs (some (logical op)) b = exec_logical-Runs i named vm op
    exec_selected-Runs (some (shift op)) b = exec_shift-Runs i named vm op
    exec_selected-Runs (some (comparison op)) b = exec_comparison-Runs i named vm op
    exec_selected-Runs (some (memory op)) b = exec_memory-Runs f placed b op
    exec_selected-Runs (some (branch op)) b = exec_branch-Runs i named vm op
    exec_selected-Runs (some (jump op)) b = exec_jump-Runs i named vm op
    exec_selected-Runs (some (system op)) b = exec_system-Runs i named vm op
    exec_selected-Runs (some (interrupt op)) b = exec_interrupt-Runs i named vm op f b
    exec_selected-Runs (some (privilege op)) b = exec_privilege-Runs i named vm op

    -- An instruction with registers below 32 and no hazard of its opcode runs without undefined
    -- behaviour.
    pub execute-Runs : IsBenign (opcode_of i.opcode) i vm → Runs (execute i vm)
    unfolding execute
    execute-Runs b = exec_selected-Runs (opcode_of i.opcode) b
