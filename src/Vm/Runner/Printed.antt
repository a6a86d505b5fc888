-- ===== src/Vm/Runner/Printed.antt =====
-- What the runner of src/vm/main.c prints and exits with when a program has ended.
use crisp.Base.{
  ℕ, ◌≤◌, ◌<◌, ◌≡◌, refl, sym, ap, arith, Bool, true, false, if◌then◌else◌, [], ◌++◌, ok,
  Bool-cases, inl, inr,
}
use mathlib.Core.Path.{subst}
use crisp.CString.Literal.{codes}
use crisp.CString.Format.{Text, decimal_long}
use crisp.CString.Numerals.{Numeral, decimal_long-Numeral, hex_word-Numeral}
use crisp.Vm.Invariant.{Fits}
use crisp.Vm.State.{Vm}
use crisp.Vm.Step.{Status, success, error, step}
use crisp.Vm.Runner.{max_execution_steps}
use crisp.Vm.Runner.Bounded.{Steps}
use crisp.Vm.Runner.Dump.{Dump, print_registers-Dump}
use crisp.Vm.Runner.Counts.{Stops, by_halt, by_bound, by_error}
use crisp.Vm.Runner.Main.{Arguments, Exit, report, print_registers}

-- What is printed up to the start of the run.
pub data Banner (args : Arguments) (load_addr : ℕ) : Text → Type 0 where
  banner :
      {count addr : Text}
      → Numeral 10 count args.bytes_read
      → Numeral 16 addr load_addr
      → Banner args load_addr (
          (codes "Loaded "
            ++ (count
                ++ (codes " bytes from '"
                    ++ (args.filename ++ (codes "' at address 0x" ++ (addr ++ codes "\n"))))))
          ++ (codes "\nStarting execution at 0x" ++ (addr ++ codes "...\n")))

-- How the program ends: the steps that it has taken from the machine `vm` on, its exit code, and
-- what it has printed.
pub data Reports (args : Arguments) (load_addr : ℕ) (vm : Vm) (e : Exit) : Type 0 where
  at_halt :
      {k : ℕ} {before count table : Text}
      → k ≤ 1000000
      → Steps k vm e.vm
      → e.vm.running ≡ false
      → e.code ≡ 0
      → Banner args load_addr before
      → Numeral 10 count k
      → Dump e.vm table
      → e.printed.out
        ≡ before ++ (codes "\nProgram halted after " ++ (count ++ (codes " steps\n" ++ table)))
      → e.printed.err ≡ []
      → Reports args load_addr vm e
  at_bound :
      {before count table : Text}
      → Steps 1000000 vm e.vm
      → e.vm.running ≡ true
      → e.code ≡ 0
      → Banner args load_addr before
      → Numeral 10 count 1000000
      → Dump e.vm table
      → e.printed.out ≡ before ++ table
      → e.printed.err
        ≡ codes "\nWarning: Program did not halt within " ++ (count ++ codes " steps\n")
      → Reports args load_addr vm e
  at_error :
      {k : ℕ} {mid : Vm} {before pc table : Text}
      → k < 1000000
      → Steps k vm mid
      → mid.running ≡ true
      → step mid ≡ ok (error, e.vm)
      → e.code ≡ 1
      → Banner args load_addr before
      → Numeral 16 pc e.vm.pc
      → Dump e.vm table
      → e.printed.out ≡ before ++ table
      → e.printed.err ≡ codes "\nError: VM execution failed at PC=0x" ++ (pc ++ codes "\n")
      → Reports args load_addr vm e

-- The report on a loop that succeeds.
abbrev ended : Bool → Text → ℕ → Vm → Exit
ended running before k vm =
    if running
    then record {
      code = 0;
      vm = vm;
      printed = record {
        out = before ++ print_registers vm;
        err =
            codes "\nWarning: Program did not halt within "
            ++ (decimal_long max_execution_steps ++ codes " steps\n");
      };
    }
    else record {
      code = 0;
      vm = vm;
      printed = record {
        out =
            before
            ++ (codes "\nProgram halted after "
                ++ (decimal_long k ++ (codes " steps\n" ++ print_registers vm)));
        err = [];
      };
    }

pub report-vm : (before : Text) (k : ℕ) (s : Status) (vm : Vm) → (report before (k, s, vm)).vm ≡ vm
unfolding report
report-vm before k error vm = refl
report-vm before k success vm = elim (Bool-cases vm.running) [
  | inl on ↦ ap (λ b. (ended b before k vm).vm) on
  | inr off ↦ ap (λ b. (ended b before k vm).vm) off
]

pub report-Reports :
    (args : Arguments) (load_addr : ℕ) (vm vm' : Vm) (before : Text) (k : ℕ) (s : Status)
    → Banner args load_addr before
    → Fits vm'
    → Stops vm vm' max_execution_steps k s
    → Reports args load_addr vm (report before (k, s, vm'))
unfolding report
report-Reports args load_addr vm vm' before k s b f (by_halt few r off) =
    subst (λ on. Reports args load_addr vm (ended on before k vm')) (sym off)
      (at_halt few r off refl b (decimal_long-Numeral k (omega arith)) (print_registers-Dump vm' f)
        refl refl)
report-Reports args load_addr vm vm' before k s b f (by_bound r still) =
    subst (λ on. Reports args load_addr vm (ended on before k vm')) (sym still)
      (at_bound r still refl b (decimal_long-Numeral max_execution_steps (omega arith))
        (print_registers-Dump vm' f) refl refl)
report-Reports args load_addr vm vm' before k s b f (by_error few r on failed) =
    at_error few r on failed refl b (hex_word-Numeral vm'.pc f.pc) (print_registers-Dump vm' f) refl
      refl
