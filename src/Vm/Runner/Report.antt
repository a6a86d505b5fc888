-- ===== src/Vm/Runner/Report.antt =====
-- What `main` of src/vm/main.c reports: its exit code, the count of steps, and the machine.
use crisp.Base.{
  ℕ, ◌-◌, ◌^◌, ◌<◌, ◌≡◌, ◌==◌, leb, not, ◌&&◌, ◌||◌, refl, sym, ap, ◌∙◌, arith, Bool, true, false,
  if◌then◌else◌, Option, none, some, u32, Outcome, ok, ◌>>=◌,
}
use mathlib.Core.Path.{subst}
use crisp.CString.Format.{Text}
use crisp.CString.Numerals.{decimal_long-Numeral, hex_word-Numeral}
use crisp.Vm.Invariant.{Fits}
use crisp.Vm.State.{Vm, vm_init}
use crisp.Vm.Step.{Status, success, error}
use crisp.Vm.Runner.{
  Binary, load_binary_file, vm_memory, vm_memory_size, max_execution_steps, default_load_addr,
}
use crisp.Vm.Runner.Bounded.{Reads, run_binary-IsValid}
use crisp.Vm.Runner.Bare.{status_of, answer_of, main-loaded, main-run_binary}
use crisp.Vm.Runner.Printed.{Banner, banner, Reports, report-vm, report-Reports}
use crisp.Vm.Runner.Counts.{Stops, counts, count_steps-Counts}
use crisp.Vm.Runner.Main.{
  Arguments, Exit, load_message, found_address, parse_load_addr, count_steps, report, starting,
  run_loaded, main,
}

-- A load address is a word.
found_address-lt : (a b : Option ℕ) (addr : ℕ) → found_address a b ≡ some addr → addr < 2 ^ 32
unfolding found_address
found_address-lt (some x) b addr e = let same : addr ≡ u32 x = cc in omega arith
found_address-lt none (some x) addr e = let same : addr ≡ u32 x = cc in omega arith
found_address-lt none none addr e = absurd cc

default_or-lt :
    (b : Bool) (a : Option ℕ) (addr : ℕ)
    → ((x : ℕ) → a ≡ some x → x < 2 ^ 32)
    → (if b then a else some default_load_addr) ≡ some addr
    → addr < 2 ^ 32
default_or-lt true a addr h e = h addr e
default_or-lt false a addr h e = let same : addr ≡ default_load_addr = cc e in omega arith

parse_load_addr-lt :
    (args : Arguments) (addr : ℕ) → parse_load_addr args ≡ some addr → addr < 2 ^ 32
unfolding parse_load_addr
parse_load_addr-lt args addr e =
    default_or-lt (args.argc == 3) (found_address args.prefixed args.plain) addr
      (found_address-lt args.prefixed args.plain) e

-- What a load that succeeds has found.
abbrev load_status : (opens beyond failed : Bool) → Status
load_status opens beyond failed =
    if not opens || beyond then error else if failed then error else success

load_status-success :
    (opens beyond failed : Bool)
    → load_status opens beyond failed ≡ success
    → (opens ≡ true) × (beyond ≡ false) × (failed ≡ false)
load_status-success true false false e = (refl, refl, refl)
load_status-success true false true e = absurd (cc e)
load_status-success true true failed e = absurd (cc e)
load_status-success false beyond failed e = absurd (cc e)

abbrev answered : Status × Vm → Status
answered r = r.0

status_if :
    (b : Bool) (s : Status) (vm vm' : Vm)
    → answered (if b then (error, vm) else (s, vm')) ≡ (if b then error else s)
status_if true s vm vm' = refl
status_if false s vm vm' = refl

module _ (args : Arguments) (file : Binary) (load_addr : ℕ)
    (accepted : (leb 2 args.argc && leb args.argc 3) ≡ true)
    (parsed : parse_load_addr args ≡ some load_addr) (vm : Vm) where
  abbrev initial : Vm
  initial = vm_init vm vm_memory vm_memory_size

  abbrev started : Vm
  started = record (load_binary_file file initial load_addr).1 { pc = load_addr; running = true }

  abbrev before : Text
  before = starting (load_message args file initial load_addr).out load_addr

  reported :
      (m : Outcome (ℕ × Status × Vm)) (e : Exit)
      → count_steps max_execution_steps 0 started ≡ m
      → (m >>= λ r. ok (report before r)) ≡ ok e
      → (k : ℕ) × (s : Status) × (vm' : Vm) × Stops started vm' max_execution_steps k s
        × (e ≡ report before (k, s, vm'))
  reported (Outcome.ok (n, s, vm')) e counted r =
      elim (count_steps-Counts max_execution_steps 0 n s started vm' counted) [
        | counts k same stops ↦ let n_k : n ≡ k = omega (arith, same) in (k, s, vm', stops, cc)
      ]
  reported Outcome.fault e counted r = absurd cc

  main-counted :
      (e : Exit)
      → (load_binary_file file initial load_addr).0 ≡ success
      → main args file vm ≡ ok e
      → (count_steps max_execution_steps 0 started >>= λ r. ok (report before r)) ≡ ok e
  unfolding run_loaded
  main-counted e loads r =
      sym (
        ap
          (λ s.
            run_loaded load_addr (load_message args file initial load_addr)
              (s, (load_binary_file file initial load_addr).1))
          loads)
      ∙ sym (main-loaded args file load_addr accepted parsed vm)
      ∙ r

  -- The machine that the program ends with is well formed.
  exit-Fits : Reads file → (e : Exit) → main args file vm ≡ ok e → load_addr < 2 ^ 32 → Fits e.vm
  exit-Fits reads e r word =
      (run_binary-IsValid file reads load_addr word vm e.vm (status_of e.code)
        (sym (main-run_binary args file load_addr accepted parsed vm) ∙ ap answer_of r)).fits

  opened :
      (load_binary_file file initial load_addr).0 ≡ success
      → (file.opens ≡ true) × (leb initial.memory_size load_addr ≡ false) × (file.failed ≡ false)
  unfolding load_binary_file
  opened loads = load_status-success file.opens (leb initial.memory_size load_addr) file.failed (
      sym (
        status_if (not file.opens || leb initial.memory_size load_addr)
          (if file.failed then error else success) initial
          (record initial {
            memory = file.read initial.memory load_addr (initial.memory_size - load_addr);
          }))
      ∙ loads)

  before-Banner :
      args.bytes_read < 2 ^ 64
      → load_addr < 2 ^ 32
      → (load_binary_file file initial load_addr).0 ≡ success
      → Banner args load_addr before
  unfolding load_message
  before-Banner few word loads =
      let (opens, inside, read) = opened loads in
      rw (opens, inside, read)
        (banner (decimal_long-Numeral args.bytes_read few) (hex_word-Numeral load_addr word))

  -- With one argument or two, and a load address that is the default or can be read: if the file is
  -- loaded, with `fread` writing bytes and only to its range and returning a count below 2^64, and
  -- the program ends without undefined behaviour, then it has taken k steps that succeed from the
  -- load address on, up to a halt, the bound, or a step that fails. After a halt it exits with 0 and
  -- prints k, at the bound it exits with 0 and warns, and after a step that fails it exits with 1
  -- and prints the PC; and in each case it prints the numbers and values of the registers and the PC
  -- of the machine at its end, numbers in decimal and values in hexadecimal.
  pub main-Reports :
      Reads file
      → args.bytes_read < 2 ^ 64
      → (e : Exit) → (load_binary_file file initial load_addr).0 ≡ success
      → main args file vm ≡ ok e
      → Reports args load_addr started e
  main-Reports reads few e loads r =
      let word : load_addr < 2 ^ 32 = parse_load_addr-lt args load_addr parsed in
      let (k, s, vm', stops, same) =
        reported (count_steps max_execution_steps 0 started) e refl (main-counted e loads r) in
      subst (Reports args load_addr started) (sym same) (
        report-Reports args load_addr started vm' before k s (before-Banner few word loads)
          (subst Fits (ap (λ e. e.vm) same ∙ report-vm before k s vm') (exit-Fits reads e r word))
          stops)
