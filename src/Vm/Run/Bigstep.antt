-- ===== src/Vm/Run/Bigstep.antt =====
-- Runs as sequences of steps, without a bound, and what the bounded loop has to do with them.
use crisp.Base.{
  ℕ, zero, suc, ◌+◌, ◌≡◌, refl, ◌∙◌, sym, ap, arith, Bool, true, false, Outcome, ok, ◌>>=◌,
  Bool-cases, inl, inr,
}
use mathlib.Core.Path.{subst}
use crisp.Vm.State.{Vm}
use crisp.Vm.Step.{Status, success, error, step}
use crisp.Vm.Run.{Run, stopped, continue, run_loop}
use crisp.Vm.Invariant.{IsValid}
use crisp.Vm.Invariant.Step.{step-IsValid}

-- The first machine runs to its end in the second: it has halted, or a step fails, or a step
-- succeeds and the rest runs.
pub data RunsTo : Vm → Vm → Type 0 where
  halted : {vm : Vm} → vm.running ≡ false → RunsTo vm vm
  fails : {vm vm' : Vm} → vm.running ≡ true → step vm ≡ ok (error, vm') → RunsTo vm vm'
  steps :
      {vm mid vm' : Vm}
      → vm.running ≡ true
      → step vm ≡ ok (success, mid)
      → RunsTo mid vm'
      → RunsTo vm vm'

abbrev round : Bool → (left : ℕ) → Vm → Outcome Run
round b left vm = elim b [ false ↦ ok (stopped vm) | true ↦ step vm >>= continue (run_loop left) ]

run_loop-halted :
    (left : ℕ) (vm : Vm) → vm.running ≡ false → run_loop (suc left) vm ≡ ok (stopped vm)
unfolding run_loop
run_loop-halted left vm e = ap (λ b. round b left vm) e

run_loop-running :
    (left : ℕ) (vm : Vm)
    → vm.running ≡ true
    → run_loop (suc left) vm ≡ (step vm >>= continue (run_loop left))
unfolding run_loop
run_loop-running left vm e = ap (λ b. round b left vm) e

-- What happens to the outcome of a step.
continue-RunsTo :
    (left : ℕ) (vm vm' : Vm) (m : Outcome (Status × Vm))
    → vm.running ≡ true
    → step vm ≡ m
    → ((mid : Vm) → run_loop left mid ≡ ok (stopped vm') → RunsTo mid vm')
    → (m >>= continue (run_loop left)) ≡ ok (stopped vm')
    → RunsTo vm vm'
unfolding continue
continue-RunsTo left vm vm' (Outcome.ok (success, mid)) on e rest r = steps on e (rest mid r)
continue-RunsTo left vm vm' (Outcome.ok (error, mid)) on e rest r = fails on (e ∙ cc)
continue-RunsTo left vm vm' Outcome.fault on e rest r = absurd cc

-- If the loop stops within the rounds it is given, the machine has run by steps to the state in
-- which it stops.
pub run_loop-RunsTo : (left : ℕ) (vm vm' : Vm) → run_loop left vm ≡ ok (stopped vm') → RunsTo vm vm'
unfolding run_loop
run_loop-RunsTo zero vm vm' r = absurd cc
run_loop-RunsTo (suc left) vm vm' r = elim (Bool-cases vm.running) [
  | inl on ↦
      continue-RunsTo left vm vm' (step vm) on refl (λ mid. run_loop-RunsTo left mid vm')
        (sym (run_loop-running left vm on) ∙ r)
  | inr off ↦ subst (RunsTo vm) (cc) (halted off)
]

-- A machine that runs to an end by steps is brought to that end by the loop, given enough rounds,
-- and any more rounds change nothing.
pub RunsTo-run_loop :
    {vm vm' : Vm}
    → RunsTo vm vm'
    → (enough : ℕ) × ((extra : ℕ) → run_loop (enough + extra) vm ≡ ok (stopped vm'))
unfolding continue
RunsTo-run_loop {vm} (halted off) =
    (1, λ extra. ap (λ k. run_loop k vm) (omega arith) ∙ run_loop-halted extra vm off)
RunsTo-run_loop {vm} (fails on e) =
    (1, λ extra. ap (λ k. run_loop k vm) (omega arith) ∙ run_loop-running extra vm on ∙ rw e refl)
RunsTo-run_loop {vm} (steps on e rest) =
    let (enough, r) = RunsTo-run_loop rest in
    (
      suc enough,
      λ extra.
          ap (λ k. run_loop k vm) (omega arith)
          ∙ run_loop-running (enough + extra) vm on
          ∙ rw e (r extra),
    )

-- A well-formed machine that runs to an end is well formed there.
pub RunsTo-IsValid : (vm vm' : Vm) → IsValid vm → RunsTo vm vm' → IsValid vm'
RunsTo-IsValid vm vm' v (halted off) = v
RunsTo-IsValid vm vm' v (fails on e) = step-IsValid vm vm' error v e
RunsTo-IsValid vm vm' v (steps {mid = mid} on e rest) =
    RunsTo-IsValid mid vm' (step-IsValid vm mid success v e) rest
