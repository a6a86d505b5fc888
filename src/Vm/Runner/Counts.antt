-- ===== src/Vm/Runner/Counts.antt =====
-- The loop of `main` in src/vm/main.c with its count: how many steps it has taken when it ends.
use crisp.Base.{
  ℕ, zero, suc, ◌+◌, ◌≤◌, ◌<◌, ◌≡◌, refl, sym, ap, ◌∙◌, arith, Bool, true, false, Outcome, ok,
  ◌>>=◌, Bool-cases, inl, inr,
}
use mathlib.Core.Path.{subst}
use crisp.Vm.State.{Vm}
use crisp.Vm.Step.{Status, success, error, step}
use crisp.Vm.Runner.Bounded.{Steps, no_step, next_step}
use crisp.Vm.Runner.Main.{unless_failed, count_steps}

abbrev counted_round : Bool → (left step_count : ℕ) → Vm → Outcome (ℕ × Status × Vm)
counted_round b left step_count vm = elim b [
  | false ↦ ok (step_count, success, vm)
  | true ↦ step vm >>= unless_failed step_count (count_steps left (step_count + 1))
]

pub count_steps-halted :
    (left step_count : ℕ) (vm : Vm)
    → vm.running ≡ false
    → count_steps left step_count vm ≡ ok (step_count, success, vm)
unfolding count_steps
count_steps-halted zero step_count vm e = refl
count_steps-halted (suc left) step_count vm e = ap (λ b. counted_round b left step_count vm) e

pub count_steps-running :
    (left step_count : ℕ) (vm : Vm)
    → vm.running ≡ true
    → count_steps (suc left) step_count vm
      ≡ (step vm >>= unless_failed step_count (count_steps left (step_count + 1)))
unfolding count_steps
count_steps-running left step_count vm e = ap (λ b. counted_round b left step_count vm) e

-- How a loop of at most `left` steps ends after `k` of them, and with which result.
pub data Stops (vm vm' : Vm) : (left k : ℕ) → Status → Type 0 where
  by_halt :
      {left k : ℕ} → k ≤ left → Steps k vm vm' → vm'.running ≡ false → Stops vm vm' left k success
  by_bound : {left : ℕ} → Steps left vm vm' → vm'.running ≡ true → Stops vm vm' left left success
  by_error :
      {left k : ℕ} {mid : Vm}
      → k < left
      → Steps k vm mid
      → mid.running ≡ true
      → step mid ≡ ok (error, vm')
      → Stops vm vm' left k error

stepped-Stops :
    {left k : ℕ} {s : Status} {vm mid vm' : Vm}
    → vm.running ≡ true
    → step vm ≡ ok (success, mid)
    → Stops mid vm' left k s
    → Stops vm vm' (suc left) (suc k) s
stepped-Stops on e (by_halt few r off) = by_halt (omega arith) (next_step on e r) off
stepped-Stops on e (by_bound r still) = by_bound (next_step on e r) still
stepped-Stops on e (by_error few r still failed) =
    by_error (omega arith) (next_step on e r) still failed

-- The loop that started at a count ends with what it adds to it.
pub data Counts (vm vm' : Vm) (left step_count n : ℕ) (s : Status) : Type 0 where
  counts : (k : ℕ) → n ≡ step_count + k → Stops vm vm' left k s → Counts vm vm' left step_count n s

abbrev done : ℕ → Vm → Outcome (ℕ × Status × Vm)
done step_count vm = ok (step_count, success, vm)

same_count : {step_count n : ℕ} → n ≡ step_count → n ≡ step_count + 0
same_count e = omega arith

halted-Counts :
    (left step_count n : ℕ) (s : Status) (vm vm' : Vm)
    → vm.running ≡ false
    → done step_count vm ≡ ok (n, s, vm')
    → Counts vm vm' left step_count n s
halted-Counts left step_count n error vm vm' off r = absurd cc
halted-Counts left step_count n success vm vm' off r =
    subst (λ v. Counts vm v left step_count n success) (cc)
      (counts 0 (same_count (cc)) (by_halt (omega arith) no_step off))

unless_failed-Counts :
    (left step_count n : ℕ) (s : Status) (vm vm' : Vm) (m : Outcome (Status × Vm))
    → vm.running ≡ true
    → step vm ≡ m
    → ((mid : Vm)
        → count_steps left (step_count + 1) mid ≡ ok (n, s, vm')
        → Counts mid vm' left (step_count + 1) n s)
    → (m >>= unless_failed step_count (count_steps left (step_count + 1))) ≡ ok (n, s, vm')
    → Counts vm vm' (suc left) step_count n s
unfolding unless_failed
unless_failed-Counts left step_count n s vm vm' (Outcome.ok (success, mid)) on e rest r =
    elim (rest mid r) [
      | counts k same stops ↦ counts (suc k) (omega arith) (stepped-Stops on e stops)
    ]
unless_failed-Counts left step_count n success vm vm' (Outcome.ok (error, mid)) on e rest r =
    absurd cc
unless_failed-Counts left step_count n error vm vm' (Outcome.ok (error, mid)) on e rest r =
    counts 0 (same_count (cc)) (by_error (omega arith) no_step on (e ∙ (cc)))
unless_failed-Counts left step_count n s vm vm' Outcome.fault on e rest r = absurd cc

bound-Counts :
    (step_count n : ℕ) (s : Status) (vm vm' : Vm)
    → vm.running ≡ true
    → done step_count vm ≡ ok (n, s, vm')
    → Counts vm vm' 0 step_count n s
bound-Counts step_count n error vm vm' on r = absurd cc
bound-Counts step_count n success vm vm' on r =
    subst (λ v. Counts vm v 0 step_count n success) (cc)
      (counts 0 (same_count (cc)) (by_bound no_step on))

pub count_steps-Counts :
    (left step_count n : ℕ) (s : Status) (vm vm' : Vm)
    → count_steps left step_count vm ≡ ok (n, s, vm')
    → Counts vm vm' left step_count n s
count_steps-Counts zero step_count n s vm vm' r = elim (Bool-cases vm.running) [
  | inl on ↦ bound-Counts step_count n s vm vm' on (unfold count_steps in r)
  | inr off ↦
      halted-Counts zero step_count n s vm vm' off
        (sym (count_steps-halted zero step_count vm off) ∙ r)
]
count_steps-Counts (suc left) step_count n s vm vm' r = elim (Bool-cases vm.running) [
  | inl on ↦
      unless_failed-Counts left step_count n s vm vm' (step vm) on refl
        (λ mid. count_steps-Counts left (step_count + 1) n s mid vm')
        (sym (count_steps-running left step_count vm on) ∙ r)
  | inr off ↦
      halted-Counts (suc left) step_count n s vm vm' off
        (sym (count_steps-halted (suc left) step_count vm off) ∙ r)
]
