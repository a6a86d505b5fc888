-- ===== src/Vm/Runner/Bare.antt =====
-- `main` of src/vm/main.c without its messages: the run of a binary file in Vm/Runner.
use crisp.Base.{
  ℕ, zero, suc, ◌+◌, ◌≡◌, ◌==◌, leb, ◌&&◌, refl, sym, ap, ◌∙◌, true, if◌then◌else◌, some, Outcome,
  ok, ◌>>=◌, Bool-cases, inl, inr,
}
use crisp.CString.Format.{Text}
use crisp.Vm.State.{Vm, vm_init}
use crisp.Vm.Step.{Status, success, error, step}
use crisp.Vm.Runner.{
  Binary, load_binary_file, unless_error, execute_program, run_binary, vm_memory, vm_memory_size,
  max_execution_steps,
}
use crisp.Vm.Runner.Bounded.{execute_program-running, execute_program-halted}
use crisp.Vm.Runner.Counts.{count_steps-halted, count_steps-running}
use crisp.Vm.Runner.Main.{
  Arguments, Printed, Exit, load_message, parse_load_addr, unless_failed, count_steps, report,
  starting, run_loaded, load_and_run, main,
}

-- The program's answer to the shell: 0 is success.
abbrev pub status_of : ℕ → Status
status_of code = if code == 0 then success else error

abbrev outcome_of : Outcome (ℕ × Status × Vm) → Outcome (Status × Vm)
outcome_of m = m >>= λ (n, s, vm). ok (s, vm)

abbrev pub answer_of : Outcome Exit → Outcome (Status × Vm)
answer_of m = m >>= λ e. ok (status_of e.code, e.vm)

unless_failed-unless_error :
    (left step_count : ℕ) (m : Outcome (Status × Vm))
    → ((mid : Vm) → outcome_of (count_steps left (step_count + 1) mid) ≡ execute_program left mid)
    → outcome_of (m >>= unless_failed step_count (count_steps left (step_count + 1)))
      ≡ (m >>= unless_error (execute_program left))
unfolding unless_failed unless_error
unless_failed-unless_error left step_count (Outcome.ok (success, mid)) rest = rest mid
unless_failed-unless_error left step_count (Outcome.ok (error, mid)) rest = refl
unless_failed-unless_error left step_count Outcome.fault rest = refl

count_steps-execute_program :
    (left step_count : ℕ) (vm : Vm)
    → outcome_of (count_steps left step_count vm) ≡ execute_program left vm
unfolding count_steps execute_program
count_steps-execute_program zero step_count vm = refl
count_steps-execute_program (suc left) step_count vm = elim (Bool-cases vm.running) [
  | inl on ↦
      ap outcome_of (count_steps-running left step_count vm on)
      ∙ unless_failed-unless_error left step_count (step vm)
          (count_steps-execute_program left (step_count + 1))
      ∙ sym (execute_program-running left vm on)
  | inr off ↦
      ap outcome_of (count_steps-halted (suc left) step_count vm off)
      ∙ sym (execute_program-halted (suc left) vm off)
]

report-outcome :
    (before : Text) (m : Outcome (ℕ × Status × Vm))
    → answer_of (m >>= λ r. ok (report before r)) ≡ outcome_of m
unfolding report
report-outcome before (Outcome.ok (n, success, vm)) = elim (Bool-cases vm.running) [
  | inl on ↦ rw on refl
  | inr off ↦ rw off refl
]
report-outcome before (Outcome.ok (n, error, vm)) = refl
report-outcome before Outcome.fault = refl

run_loaded-unless_error :
    (load_addr : ℕ) (printed : Printed) (r : Status × Vm)
    → answer_of (run_loaded load_addr printed r)
      ≡ unless_error
          (λ vm. execute_program max_execution_steps (record vm { pc = load_addr; running = true }))
          r
unfolding run_loaded unless_error
run_loaded-unless_error load_addr printed (error, vm) = refl
run_loaded-unless_error load_addr printed (success, vm) =
    report-outcome (starting printed.out load_addr)
      (count_steps max_execution_steps 0 (record vm { pc = load_addr; running = true }))
    ∙ count_steps-execute_program max_execution_steps 0
        (record vm { pc = load_addr; running = true })

module _ (args : Arguments) (file : Binary) (load_addr : ℕ)
    (accepted : (leb 2 args.argc && leb args.argc 3) ≡ true)
    (parsed : parse_load_addr args ≡ some load_addr) (vm : Vm) where
  abbrev initial : Vm
  initial = vm_init vm vm_memory vm_memory_size

  pub main-loaded :
      main args file vm
      ≡ run_loaded load_addr
          (load_message args file initial load_addr)
          (load_binary_file file initial load_addr)
  unfolding main load_and_run
  main-loaded = rw (accepted, parsed) refl

  pub main-run_binary :
      (main args file vm >>= λ e. ok (status_of e.code, e.vm)) ≡ run_binary file vm load_addr
  unfolding run_binary
  main-run_binary =
      ap answer_of main-loaded
      ∙ run_loaded-unless_error load_addr (load_message args file initial load_addr)
          (load_binary_file file initial load_addr)
