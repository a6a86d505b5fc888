-- ===== src/Vm/Invariant/Step.antt =====
-- Well-formed states and `c32_vm_step`.
use crisp.Base.{ℕ, ◌+◌, ◌≡◌, refl, arith, true, false, not, ltb, u32, ok, bit_and, ◌==◌}
use crisp.Array.{Array, load}
use crisp.Vm.State.{Vm}
use crisp.Vm.Interrupts.{raise_interrupt, Check, failed}
use crisp.Vm.Mmu.{invalid_address}
use crisp.Vm.Instruction.{Instruction}
use crisp.Vm.Step.{Status, decode, perform, fetch, cycle, step}
use crisp.Vm.Memory.Laws.{AreBytes}
use crisp.Vm.Invariant.{
  IsWord, Fits, IsValid, Post, ends, faults, Post-bind, Post-if, Post-ok, with_pc-Fits, halted-Fits,
  with_regs-Fits, update-IsWord, raise_interrupt-Fits, raise_interrupt-regs,
}
use crisp.Vm.Invariant.Memory.{read_word-IsWord}
use crisp.Vm.Invariant.Mmu.{translate_address-Translated}
use crisp.Vm.Invariant.Execute.{execute-Fits}
use crisp.Vm.Invariant.Dispatch.{Checked, check_interrupts-IsValid}

abbrev Stepped : Status × Vm → Type 0
Stepped r = IsValid r.1

load-Any : (m : Array) (a : ℕ) → Post (λ _. Unit {0}) (load m a)
unfolding load
load-Any m a = Post-if (ltb a m.size) (λ _. ends tt) (λ _. faults)

decode-Fits :
    (m : Array) (a : ℕ) → AreBytes m → Post (λ i. IsWord (Instruction.immediate i)) (decode m a)
unfolding decode
decode-Fits m a bytes = Post-bind (load-Any m a) λ _ _. Post-bind (load-Any m (a + 1)) λ _ _.
    Post-bind (load-Any m (a + 2)) λ _ _.
      Post-bind (load-Any m (a + 3))
        λ _ _. Post-bind (read_word-IsWord m bytes (a + 4)) λ imm h. ends h

perform-Fits :
    (i : Instruction) → IsWord i.immediate → {vm : Vm} → Fits vm → Post Stepped (perform i vm)
unfolding perform
perform-Fits i imm f = Post-bind (execute-Fits i imm (with_pc-Fits f _ (omega arith))) λ vm' f'.
    ends
      (record { fits = with_regs-Fits f' _ (update-IsWord f' 0 0 (omega arith)); zero_reg = refl })

-- The states that an error leaves, whose register 0 is untouched.
faulted-IsValid : {vm : Vm} (n : ℕ) → IsValid vm → IsValid (raise_interrupt vm n)
faulted-IsValid n v = record {
  fits = raise_interrupt-Fits v.fits n;
  zero_reg = rw raise_interrupt-regs v.zero_reg;
}

fetch-IsValid : (t : ℕ × Vm) → IsValid t.1 → Post Stepped (fetch t)
unfolding fetch
fetch-IsValid (phys, vm) v =
    Post-if (phys == invalid_address) (λ _. ends v)
      (λ _.
        Post-if (ltb vm.memory_size (u32 (phys + 8)))
          (λ _. ends (record { fits = halted-Fits v.fits; zero_reg = v.zero_reg }))
          (λ _.
            Post-bind (decode-Fits vm.memory phys v.fits.bytes) λ i imm. perform-Fits i imm v.fits))

cycle-IsValid : (r : Check × Vm) → Checked r → Post Stepped (cycle r)
unfolding cycle
cycle-IsValid (failed, vm) v = ends v
cycle-IsValid (_, vm) v =
    Post-if (not (bit_and vm.pc 0x7 == 0)) (λ _. ends (faulted-IsValid 2 v))
      (λ _.
        Post-bind (translate_address-Translated v.fits vm.pc false true v.fits.pc)
          λ t (_, f, same). fetch-IsValid t (record { fits = f; zero_reg = rw same v.zero_reg }))

step-Stepped : {vm : Vm} → IsValid vm → Post Stepped (step vm)
unfolding step
step-Stepped v = Post-bind (check_interrupts-IsValid v) cycle-IsValid

-- From a well-formed state every step that is free of undefined behaviour, whether it reports
-- success or an error, ends in a well-formed state: each field holds a value of its C type, the
-- memory keeps its bounds, and register 0 reads as zero.
pub step-IsValid :
    (vm vm' : Vm) (status : Status) → IsValid vm → step vm ≡ ok (status, vm') → IsValid vm'
step-IsValid vm vm' status v e = Post-ok (step-Stepped v) e
