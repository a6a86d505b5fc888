-- ===== src/Vm/Safety/Step.antt =====
-- Instruction cycles that are free of undefined behaviour.
use crisp.Base.{
  ℕ, zero, suc, ◌+◌, ◌*◌, ◌^◌, ◌≤◌, ◌<◌, ◌≡◌, inl, inr, ◌==◌, leb, ltb, not, bit_and, sym, ap,
  arith, true, false, ok, ◌>>=◌, u32, sub32, Returns, returns,
}
use mathlib.Core.Path.{subst}
use crisp.Base.Runs.{Returns-bind, Returns-if, Returns-ok}
use crisp.Array.{Array, load-ok}
use crisp.Vm.Memory.Laws.{AreBytes}
use crisp.Vm.State.{Vm}
use crisp.Vm.Interrupts.{
  Check, dispatched, idle, failed, is_pending, clear_pending, push_frame, save_frame, enter_handler,
  dispatch, scan, check_interrupts,
}
use crisp.Vm.Interrupts.Frame.{save_regs-Saved}
use crisp.Vm.Mmu.{invalid_address, translate_address}
use crisp.Vm.Instruction.{Instruction}
use crisp.Vm.Opcode.{opcode_of}
use crisp.Vm.Step.{Status, decode, perform, fetch, cycle, step}
use crisp.Vm.Invariant.{IsWord, Fits, IsValid, Post-ok, with_pc-Fits, update-IsWord}
use crisp.Vm.Invariant.Step.{step-IsValid}
use crisp.Vm.Invariant.Dispatch.{Checked, check_interrupts-IsValid}
use crisp.Vm.Safety.{IsPlaced, HasRegisters, IsBenign}
use crisp.Vm.Safety.Access.{Runs, Reached, translate_address-Reached, read_word-Runs}
use crisp.Vm.Safety.Execute.{execute-Runs}

-- A memory of bytes that is as large as stated.
record IsMemory (vm : Vm) : Type 0 where
  bytes : AreBytes vm.memory
  allocated : vm.memory_size ≤ vm.memory.size

save_frame-Returns :
    (p : Vm)
    → IsMemory p
    → ((k : ℕ) → k < 32 → IsWord (p.regs k))
    → p.interrupts.saved_regs_addr + 128 < 2 ^ 32
    → Returns IsMemory (save_frame p)
unfolding save_frame
save_frame-Returns p h words low =
    Returns-if (leb (u32 (p.interrupts.saved_regs_addr + 128)) p.memory_size)
      (λ fits.
        let (m, e, s) =
          save_regs-Saved p.regs words p.interrupts.saved_regs_addr 32 0 32 p.memory (omega arith)
            (omega arith) (ground (arith, h.allocated)) h.bytes in
        rw e (
          returns
            (record { bytes = s.bytes; allocated = omega (arith, s.same_size, h.allocated) })))
      (λ _. returns h)

enter_handler-Runs : (p : Vm) (n : ℕ) → IsMemory p → Runs (enter_handler p n)
unfolding enter_handler
enter_handler-Runs p n h =
    Returns-if (leb (n * 8 + 4) p.memory_size)
      (λ fits.
        Returns-bind (read_word-Runs p.memory h.bytes (n * 8) (ground (arith, h.allocated)))
          λ a _. returns tt)
      (λ _. returns tt)

module _ (vm : Vm) (f : Fits vm) (stack : vm.interrupts.enabled ≡ true → 128 ≤ vm.regs 29) where
  dispatch-Runs : 128 ≤ vm.regs 29 → (n : ℕ) → Runs (dispatch vm n)
  unfolding dispatch push_frame clear_pending
  dispatch-Runs room n =
      Returns-bind
        (save_frame-Returns (push_frame vm n) (record { bytes = f.bytes; allocated = f.allocated })
          (update-IsWord f 29 (sub32 (vm.regs 29) 128) (omega arith)) (omega (arith, f.regs 29)))
        λ saved h. enter_handler-Runs saved n h

  scan-Runs : 128 ≤ vm.regs 29 → (left n : ℕ) → Runs (scan left n vm)
  unfolding scan
  scan-Runs room zero n = returns tt
  scan-Runs room (suc left) n =
      Returns-if (is_pending vm n) (λ _. dispatch-Runs room n) (λ _. scan-Runs room left (n + 1))

  check_interrupts-Runs : Runs (check_interrupts vm)
  unfolding check_interrupts
  check_interrupts-Runs =
      Returns-if (not vm.interrupts.enabled) (λ _. returns tt)
        (λ on. scan-Runs (stack (ground arith)) 255 0)

-- A machine that can fetch and execute: the PC is not the last address that is a multiple of 8,
-- and the instruction that is fetched has registers and no hazard.
pub record IsReady (vm : Vm) : Type 0 where
  pub placed : IsPlaced vm
  pub pc : vm.pc + 8 < 2 ^ 32
  pub instruction :
      (t : ℕ × Vm) (i : Instruction)
      → translate_address vm vm.pc false true ≡ ok t
      → decode vm.memory t.0 ≡ ok i
      → HasRegisters i × IsBenign (opcode_of i.opcode) i (record vm { pc = u32 (vm.pc + 8) })

decode-Runs : (m : Array) (p : ℕ) → AreBytes m → p + 8 ≤ m.size → Runs (decode m p)
unfolding decode
decode-Runs m p bytes room =
    rw
      (
        load-ok m p (omega arith),
        load-ok m (p + 1) (omega arith),
        load-ok m (p + 2) (omega arith),
        load-ok m (p + 3) (omega arith),
      )
      (Returns-bind (read_word-Runs m bytes (p + 4) (omega arith)) λ imm _. returns tt)

module _ (vm : Vm) (f : Fits vm) (ready : IsReady vm) where
  perform-Runs :
      (i : Instruction)
      → HasRegisters i
      → IsBenign (opcode_of i.opcode) i (record vm { pc = u32 (vm.pc + 8) })
      → Runs (perform i vm)
  unfolding perform
  perform-Runs i named b =
      Returns-bind
        (execute-Runs i named (record vm { pc = u32 (vm.pc + 8) }) (with_pc-Fits f _ (omega arith))
          (record { table = ready.placed.table; entries = ready.placed.entries }) b)
        λ vm' _. returns tt

  fetch-Runs :
      (t : ℕ × Vm)
      → translate_address vm vm.pc false true ≡ ok t
      → Reached vm vm.pc t
      → Runs (fetch t)
  unfolding fetch
  fetch-Runs (phys, vm') e r =
      Returns-if (phys == invalid_address) (λ _. returns tt)
        (λ valid.
          Returns-if (ltb vm'.memory_size (u32 (phys + 8))) (λ _. returns tt)
            (λ fits. elim r.machine [
              | inl bad ↦ absurd (ground arith)
              | inr same ↦
                  let room : phys + 8 ≤ vm.memory.size =
                    ground
                      (arith, ap (λ v. v.memory_size) same, r.address, ready.pc, f.allocated) in
                  let (i, d, _) = Returns-ok (decode-Runs vm.memory phys f.bytes room) in
                  let (named, b) = ready.instruction (phys, vm') i e d in
                  subst (λ v. Runs (decode v.memory phys >>= λ i. perform i v)) (sym same)
                    (rw d (perform-Runs i named b))
            ]))

  running-Runs : Runs (cycle (idle, vm))
  unfolding cycle
  running-Runs =
      Returns-if (not (bit_and vm.pc 0x7 == 0)) (λ _. returns tt)
        (λ _.
          let (t, e, r) =
            Returns-ok (translate_address-Reached vm f ready.placed vm.pc false true) in
          rw e (fetch-Runs t e r))

  cycle-Runs : (c : Check) → Runs (cycle (c, vm))
  unfolding cycle
  cycle-Runs failed = returns tt
  cycle-Runs idle = running-Runs
  cycle-Runs dispatched = running-Runs

-- A step of a well-formed machine ends without undefined behaviour, in a well-formed machine,
-- under two conditions: if interrupts are enabled, there are 128 bytes of stack below R29; and the
-- machine behind the interrupt check is ready, which means that its page table lies in the memory
-- and names frames below 2^31, the PC is not 2^32 - 8, and the instruction that is fetched names
-- registers below 32, is no division of -2^31 by -1, no access at the very end of the addresses
-- and no IRET from a frame there.
pub step-Returns :
    (vm : Vm)
    → IsValid vm
    → (vm.interrupts.enabled ≡ true → 128 ≤ vm.regs 29)
    → ((c : Check) (vm' : Vm) → check_interrupts vm ≡ ok (c, vm') → IsReady vm')
    → (s : Status) × (vm' : Vm) × (step vm ≡ ok (s, vm')) × IsValid vm'
unfolding step
step-Returns vm v stack ready =
    let ((c, vm'), e, _) = Returns-ok (check_interrupts-Runs vm v.fits stack) in
    let checked : Checked (c, vm') = Post-ok (check_interrupts-IsValid v) e in
    let ((s, vm''), run, _) = Returns-ok (cycle-Runs vm' checked.fits (ready c vm' e) c) in
    let stepped : step vm ≡ ok (s, vm'') = rw e run in
    (s, vm'', stepped, step-IsValid vm vm'' s v stepped)
