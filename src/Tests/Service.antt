-- ===== src/Tests/Service.antt =====
-- Interrupts 3 and 5, one after the other.
use crisp.Base.{
  ℕ, zero, suc, ◌+◌, ◌*◌, ◌≤◌, ◌<◌, ◌^◌, ◌≡◌, refl, sym, ap, ◌∙◌, arith, true, false, ◌==◌,
  if◌then◌else◌, ok, inr, fun_ext, bit_and, ◌-◌, ◌/◌, ◌%◌,
}
use crisp.Base.Bits.{zero-and}
use crisp.Array.{update}
use crisp.Vm.State.{Vm}
use crisp.Vm.Interrupts.{dispatched, idle, is_pending, clear_pending, check_interrupts, dispatch}
use crisp.Vm.Interrupts.Priority.{check_interrupts-dispatch, check_interrupts-idle}
use crisp.Vm.Interrupts.Return.{Entered, dispatch-Entered}
use crisp.Vm.Interrupts.Service.{Waits, check_interrupts-Entered}
use crisp.Vm.Invariant.{Fits}
use crisp.Tests.Guests.{interrupted, addi_program, addi_program-AreBytes, interrupted-Fits}

-- The first byte of the bitmap at each check.
abbrev bitmap : ℕ → ℕ
bitmap i = if i == 0 then 0x28 else if i == 1 then 0x20 else 0

abbrev waiting : ℕ → Vm
waiting i = record (interrupted addi_program) {
  interrupts = record ((interrupted addi_program).interrupts) {
    pending = λ j. if j == 0 then bitmap i else 0;
  };
}

waiting-Fits : (i : ℕ) → Fits (waiting i)
waiting-Fits i =
    let f : Fits (interrupted addi_program) = interrupted-Fits addi_program addi_program-AreBytes in
    record {
      regs = f.regs;
      pc = f.pc;
      bytes = f.bytes;
      size = f.size;
      allocated = f.allocated;
      table = f.table;
      pages = f.pages;
      pending = λ j h. ground arith;
      saved_pc = f.saved_pc;
      saved_regs_addr = f.saved_regs_addr;
    }

-- A dispatch leaves the bitmap of the next check.
next_bitmap :
    (i m : ℕ)
    → m * 8 + 4 ≤ 512
    → check_interrupts (waiting i) ≡ dispatch (waiting i) m
    → (clear_pending (waiting i) m).interrupts.pending ≡ (waiting (i + 1)).interrupts.pending
    → (h : Vm) → check_interrupts (waiting i) ≡ ok (dispatched, h)
    → (k : ℕ) → is_pending (waiting (i + 1)) k ≡ is_pending h k
unfolding is_pending
next_bitmap i m vector run next h e k =
    let (h', started, entered) =
      dispatch-Entered (waiting i) (waiting-Fits i) m vector (omega arith) (omega arith) in
    let same : h' ≡ h = cc in
    let pending : h.interrupts.pending ≡ (waiting (i + 1)).interrupts.pending =
      ap (λ v. v.interrupts.pending) (sym same) ∙ entered.pending ∙ next in
    rw pending refl

waits_first : (k : ℕ) → k < 3 → is_pending (waiting 0) k ≡ false
unfolding is_pending
waits_first zero h = refl
waits_first (suc zero) h = refl
waits_first (suc (suc zero)) h = refl
waits_first (suc (suc (suc k))) h = absurd (omega arith)

waits_second : (k : ℕ) → k < 5 → is_pending (waiting 1) k ≡ false
unfolding is_pending
waits_second zero h = refl
waits_second (suc zero) h = refl
waits_second (suc (suc zero)) h = refl
waits_second (suc (suc (suc zero))) h = refl
waits_second (suc (suc (suc (suc zero)))) h = refl
waits_second (suc (suc (suc (suc (suc k))))) h = absurd (omega arith)

three : is_pending (waiting 0) 3 ≡ true
unfolding is_pending
three = refl

five_first : is_pending (waiting 0) 5 ≡ true
unfolding is_pending
five_first = refl

five : is_pending (waiting 1) 5 ≡ true
unfolding is_pending
five = refl

quiet : (i k : ℕ) → 1 < i → is_pending (waiting i) k ≡ false
unfolding is_pending
quiet i k h =
    let none_left : (waiting i).interrupts.pending (k / 8) ≡ 0 = ground arith in
    rw (none_left, zero-and (2 ^ (k % 8))) refl

cleared :
    (i m : ℕ)
    → (clear_pending (waiting i) m).interrupts.pending
      ≡ update
          (waiting i).interrupts.pending
          (m / 8)
          (bit_and ((waiting i).interrupts.pending (m / 8)) (255 - 2 ^ (m % 8)))
unfolding clear_pending
cleared i m = refl

waiting-kept :
    (i : ℕ) (h : Vm)
    → check_interrupts (waiting i) ≡ ok (dispatched, h)
    → (k : ℕ) → k ≤ 5
    → is_pending (waiting (i + 1)) k ≡ is_pending h k
waiting-kept zero h e k b =
    next_bitmap 0 3 (omega arith)
      (check_interrupts-dispatch (waiting 0) 3 refl (omega arith) three waits_first)
      (cleared 0 3 ∙ fun_ext λ j. ground arith) h e k
waiting-kept (suc zero) h e k b =
    next_bitmap 1 5 (omega arith)
      (check_interrupts-dispatch (waiting 1) 5 refl (omega arith) five waits_second)
      (cleared 1 5 ∙ fun_ext λ j. ground arith) h e k
waiting-kept (suc (suc i)) h e k b =
    let nothing : check_interrupts (waiting (suc (suc i))) ≡ ok (idle, waiting (suc (suc i))) =
      check_interrupts-idle (waiting (suc (suc i)))
        (inr (λ k b. quiet (suc (suc i)) k (omega arith))) in
    absurd cc

waiting-Waits : Waits waiting 5
waiting-Waits = record {
  fits = waiting-Fits;
  enabled = λ i. refl;
  stack = λ i. omega arith;
  room = λ i. omega arith;
  vectors = λ i. omega arith;
  kept = waiting-kept;
}

check_interrupts-Entered_example :
    (j : ℕ) × (j ≤ 5)
    × (h : Vm) × (check_interrupts (waiting j) ≡ ok (dispatched, h))
    × Entered (waiting j) 5 h
check_interrupts-Entered_example =
    check_interrupts-Entered waiting 5 (omega arith) waiting-Waits five_first
