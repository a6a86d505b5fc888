-- ===== src/Vm/Interrupts/Priority.antt =====
-- Which interrupt `check_interrupts` dispatches.
use crisp.Base.{
  ℕ, zero, suc, ◌+◌, ◌≤◌, ◌<◌, ◌≡◌, refl, arith, true, false, Bool-cases, inl, inr, ok, ◌⊎◌, ap,
  ◌∙◌, if◌then◌else◌, not,
}
use crisp.Vm.State.{Vm}
use crisp.Vm.Interrupts.{idle, dispatch, is_pending, scan, check_interrupts}

scan-dispatch :
    (vm : Vm) (n left i : ℕ)
    → i ≤ n
    → n < i + left
    → is_pending vm n ≡ true
    → ((k : ℕ) → k < n → is_pending vm k ≡ false)
    → scan left i vm ≡ dispatch vm n
unfolding scan
scan-dispatch vm n zero i h b p lowest = absurd (omega arith)
scan-dispatch vm n (suc left) i h b p lowest = elim (Bool-cases (is_pending vm i)) [
  | inl e ↦ rw e (ap (dispatch vm) (ground (arith, lowest i)))
  | inr e ↦ rw e (scan-dispatch vm n left (i + 1) (ground arith) (omega arith) p lowest)
]

scan-idle :
    (vm : Vm) (left i : ℕ)
    → ((k : ℕ) → k < i + left → is_pending vm k ≡ false)
    → scan left i vm ≡ ok (idle, vm)
unfolding scan
scan-idle vm zero i none_below = refl
scan-idle vm (suc left) i none_below =
    rw (none_below i (omega arith)) (scan-idle vm left (i + 1) λ k h. none_below k (omega arith))

check_interrupts-enabled :
    (vm : Vm) → vm.interrupts.enabled ≡ true → check_interrupts vm ≡ scan 255 0 vm
unfolding check_interrupts
check_interrupts-enabled vm on = ap (λ b. if not b then ok (idle, vm) else scan 255 0 vm) on

pub check_interrupts-disabled :
    (vm : Vm) → vm.interrupts.enabled ≡ false → check_interrupts vm ≡ ok (idle, vm)
unfolding check_interrupts
check_interrupts-disabled vm off = ap (λ b. if not b then ok (idle, vm) else scan 255 0 vm) off

-- With interrupts enabled, a pending number below 255, with no pending number below it, is
-- dispatched.
pub check_interrupts-dispatch :
    (vm : Vm) (n : ℕ)
    → vm.interrupts.enabled ≡ true
    → n < 255
    → is_pending vm n ≡ true
    → ((k : ℕ) → k < n → is_pending vm k ≡ false)
    → check_interrupts vm ≡ dispatch vm n
check_interrupts-dispatch vm n on below p lowest =
    check_interrupts-enabled vm on ∙ (scan-dispatch vm n 255 0 (omega arith) (omega arith) p lowest)

-- With interrupts disabled, or none pending below 255, nothing happens, even if 255 is pending.
pub check_interrupts-idle :
    (vm : Vm)
    → (vm.interrupts.enabled ≡ false) ⊎ ((k : ℕ) → k < 255 → is_pending vm k ≡ false)
    → check_interrupts vm ≡ ok (idle, vm)
check_interrupts-idle vm (inl off) = check_interrupts-disabled vm off
check_interrupts-idle vm (inr quiet) = elim (Bool-cases vm.interrupts.enabled) [
  | inl on ↦ check_interrupts-enabled vm on ∙ scan-idle vm 255 0 (λ k h. quiet k (omega arith))
  | inr off ↦ check_interrupts-disabled vm off
]
