-- ===== src/Vm/Runner/Bounded.antt =====
-- The bounded loop of src/vm/main.c beside `c32_vm_run`, and the machine that it runs.
use crisp.Base.{
  ℕ, zero, suc, ◌+◌, ◌-◌, ◌^◌, ◌≤◌, ◌<◌, leb, not, ◌||◌, ◌≡◌, refl, ◌∙◌, sym, ap, arith, Bool, true,
  false, Outcome, ok, ◌>>=◌, Bool-cases, inl, inr,
}
use mathlib.Core.Path.{subst}
use crisp.Array.{Array}
use crisp.Vm.Memory.Laws.{AreBytes}
use crisp.Vm.State.{Vm, vm_init}
use crisp.Vm.Lifecycle.{vm_init-IsValid}
use crisp.Vm.Invariant.{IsValid}
use crisp.Vm.Invariant.Step.{step-IsValid}
use crisp.Vm.Step.{Status, success, error, step}
use crisp.Vm.Run.Bigstep.{RunsTo, RunsTo-IsValid, halted, fails, steps}
use crisp.Vm.Runner.{
  Binary, load_binary_file, run_binary, vm_memory, vm_memory_size, max_execution_steps,
  unless_error, execute_program,
}

abbrev round : Bool → (left : ℕ) → Vm → Outcome (Status × Vm)
round b left vm = elim b [
  | false ↦ ok (success, vm)
  | true ↦ step vm >>= unless_error (execute_program left)
]

pub execute_program-halted :
    (left : ℕ) (vm : Vm) → vm.running ≡ false → execute_program left vm ≡ ok (success, vm)
unfolding execute_program
execute_program-halted zero vm e = refl
execute_program-halted (suc left) vm e = ap (λ b. round b left vm) e

pub execute_program-running :
    (left : ℕ) (vm : Vm)
    → vm.running ≡ true
    → execute_program (suc left) vm ≡ (step vm >>= unless_error (execute_program left))
unfolding execute_program
execute_program-running left vm e = ap (λ b. round b left vm) e

-- A number of steps that succeed, each of a running machine.
pub data Steps : ℕ → Vm → Vm → Type 0 where
  no_step : {vm : Vm} → Steps zero vm vm
  next_step :
      {n : ℕ} {vm mid vm' : Vm}
      → vm.running ≡ true
      → step vm ≡ ok (success, mid)
      → Steps n mid vm'
      → Steps (suc n) vm vm'

-- How the loop ends: by an error, by a halt, or at the bound with the machine still running.
pub data Ends (vm vm' : Vm) : ℕ → Status → Type 0 where
  by_error : {n : ℕ} → RunsTo vm vm' → Ends vm vm' n error
  by_halt : {n : ℕ} → vm'.running ≡ false → RunsTo vm vm' → Ends vm vm' n success
  by_bound : {n : ℕ} → vm'.running ≡ true → Steps n vm vm' → Ends vm vm' n success

stepped-Ends :
    {n : ℕ} {s : Status} {vm mid vm' : Vm}
    → vm.running ≡ true
    → step vm ≡ ok (success, mid)
    → Ends mid vm' n s
    → Ends vm vm' (suc n) s
stepped-Ends on e (by_error r) = by_error (steps on e r)
stepped-Ends on e (by_halt off r) = by_halt off (steps on e r)
stepped-Ends on e (by_bound still r) = by_bound still (next_step on e r)

unless_error-Ends :
    (left : ℕ) (vm vm' : Vm) (s : Status) (m : Outcome (Status × Vm))
    → vm.running ≡ true
    → step vm ≡ m
    → ((mid : Vm) → execute_program left mid ≡ ok (s, vm') → Ends mid vm' left s)
    → (m >>= unless_error (execute_program left)) ≡ ok (s, vm')
    → Ends vm vm' (suc left) s
unfolding unless_error
unless_error-Ends left vm vm' s (Outcome.ok (success, mid)) on e rest r =
    stepped-Ends on e (rest mid r)
unless_error-Ends left vm vm' success (Outcome.ok (error, mid)) on e rest r = absurd cc
unless_error-Ends left vm vm' error (Outcome.ok (error, mid)) on e rest r =
    by_error (fails on (e ∙ r))
unless_error-Ends left vm vm' s Outcome.fault on e rest r = absurd cc

abbrev success_of : Vm → Outcome (Status × Vm)
success_of vm = ok (success, vm)

halted-Ends :
    (left : ℕ) (vm vm' : Vm) (s : Status)
    → vm.running ≡ false
    → success_of vm ≡ ok (s, vm')
    → Ends vm vm' left s
halted-Ends left vm vm' error off r = absurd cc
halted-Ends left vm vm' success off r =
    subst (λ v. Ends vm v left success) (cc) (by_halt off (halted off))

bound-Ends :
    (vm vm' : Vm) (s : Status)
    → vm.running ≡ true
    → success_of vm ≡ ok (s, vm')
    → Ends vm vm' zero s
bound-Ends vm vm' error on r = absurd cc
bound-Ends vm vm' success on r = subst (λ v. Ends vm v zero success) (cc) (by_bound on no_step)

-- Whenever the loop of the runner ends without undefined behaviour, it has ended in one of three
-- ways: it returns an error, and the machine ran by steps to the failed one; or it succeeds, and
-- the machine ran by steps to a halt, or is still running after as many steps as the bound.
pub execute_program-Ends :
    (left : ℕ) (vm vm' : Vm) (s : Status)
    → execute_program left vm ≡ ok (s, vm')
    → Ends vm vm' left s
unfolding execute_program
execute_program-Ends zero vm vm' s r = elim (Bool-cases vm.running) [
  | inl on ↦ bound-Ends vm vm' s on r
  | inr off ↦ halted-Ends zero vm vm' s off r
]
execute_program-Ends (suc left) vm vm' s r = elim (Bool-cases vm.running) [
  | inl on ↦
      unless_error-Ends left vm vm' s (step vm) on refl (λ mid. execute_program-Ends left mid vm' s)
        (sym (execute_program-running left vm on) ∙ r)
  | inr off ↦
      halted-Ends (suc left) vm vm' s off (sym (execute_program-halted (suc left) vm off) ∙ r)
]

Steps-IsValid : {n : ℕ} {vm vm' : Vm} → IsValid vm → Steps n vm vm' → IsValid vm'
Steps-IsValid v no_step = v
Steps-IsValid v (next_step on e rest) = Steps-IsValid (step-IsValid _ _ success v e) rest

Ends-IsValid : {n : ℕ} {s : Status} {vm vm' : Vm} → IsValid vm → Ends vm vm' n s → IsValid vm'
Ends-IsValid v (by_error r) = RunsTo-IsValid _ _ v r
Ends-IsValid v (by_halt off r) = RunsTo-IsValid _ _ v r
Ends-IsValid v (by_bound still r) = Steps-IsValid v r

-- `fread` changes bytes of the range that it is given, and no others.
pub record Reads (file : Binary) : Type 0 where
  pub size : (m : Array) (p n : ℕ) → p + n ≤ m.size → (file.read m p n).size ≡ m.size
  pub bytes : (m : Array) (p n : ℕ) → p + n ≤ m.size → AreBytes m → AreBytes (file.read m p n)

module _ (file : Binary) (reads : Reads file) (load_addr : ℕ) (word : load_addr < 2 ^ 32) where
  loaded-IsValid : (vm : Vm) → IsValid vm → IsValid (load_binary_file file vm load_addr).1
  unfolding load_binary_file
  loaded-IsValid vm v = elim (Bool-cases (not file.opens || leb vm.memory_size load_addr)) [
    | inl refused ↦ rw refused v
    | inr loads ↦
        let room : load_addr + (vm.memory_size - load_addr) ≤ vm.memory.size =
          ground (arith, v.fits.allocated) in
        rw loads (record {
          fits = record {
            regs = v.fits.regs;
            pc = v.fits.pc;
            bytes = reads.bytes vm.memory load_addr (vm.memory_size - load_addr) room v.fits.bytes;
            size = v.fits.size;
            allocated = omega (
              arith,
              v.fits.allocated,
              reads.size vm.memory load_addr (vm.memory_size - load_addr) room,
            );
            table = v.fits.table;
            pages = v.fits.pages;
            pending = v.fits.pending;
            saved_pc = v.fits.saved_pc;
            saved_regs_addr = v.fits.saved_regs_addr;
          };
          zero_reg = v.zero_reg;
        })
  ]

  started-IsValid :
      (bound : ℕ) (s s' : Status) (vm vm' : Vm)
      → IsValid vm
      → unless_error
          (λ vm. execute_program bound (record vm { pc = load_addr; running = true }))
          (s, vm)
        ≡ ok (s', vm')
      → IsValid vm'
  unfolding unless_error
  started-IsValid bound error s' vm vm' v r = subst IsValid (cc) v
  started-IsValid bound success s' vm vm' v r =
      Ends-IsValid
        (record {
          fits = record {
            regs = v.fits.regs;
            pc = word;
            bytes = v.fits.bytes;
            size = v.fits.size;
            allocated = v.fits.allocated;
            table = v.fits.table;
            pages = v.fits.pages;
            pending = v.fits.pending;
            saved_pc = v.fits.saved_pc;
            saved_regs_addr = v.fits.saved_regs_addr;
          };
          zero_reg = v.zero_reg;
        })
        (execute_program-Ends bound _ vm' s' r)

  -- Whatever the file holds, if `fread` writes bytes and only to the range that it is given, and
  -- the load address is a word, then the runner, when it ends without undefined behaviour, leaves
  -- a well-formed machine.
  pub run_binary-IsValid :
      (vm vm' : Vm) (s : Status) → run_binary file vm load_addr ≡ ok (s, vm') → IsValid vm'
  unfolding run_binary
  run_binary-IsValid vm vm' s r =
      started-IsValid max_execution_steps _ s _ vm'
        (loaded-IsValid (vm_init vm vm_memory vm_memory_size) (
          vm_init-IsValid vm vm_memory vm_memory_size (λ i. omega arith) (omega arith)
            (omega arith)))
        r
