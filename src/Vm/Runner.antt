-- ===== src/Vm/Runner.antt =====
-- src/vm/main.c: the program that loads a binary and runs it. The file is a parameter, and so is
-- the load address, which `main` reads from its arguments by `sscanf`.
pub mod Assembled
pub mod Bare
pub mod Bounded
pub mod Counts
pub mod Dump
pub mod Main
pub mod Printed
pub mod Report
use crisp.Base.{
  ℕ, zero, suc, ◌-◌, leb, not, ◌||◌, Bool, true, false, if◌then◌else◌, Outcome, ok, ◌>>=◌,
}
use crisp.Array.{Array}
use crisp.Vm.State.{Vm, vm_init}
use crisp.Vm.Step.{Status, success, error, step}

abbrev pub vm_memory_size : ℕ
vm_memory_size = 65536

abbrev pub default_load_addr : ℕ
default_load_addr = 0x1000

abbrev pub max_execution_steps : ℕ
max_execution_steps = 1000000

-- `vm_memory`, a static array
abbrev pub vm_memory : Array
vm_memory = record { size = vm_memory_size; at = λ i. 0 }

-- Whether `fopen` succeeds and `ferror` reports an error, and the memory after `fread` of at most
-- `n` bytes to `memory + p`.
pub record Binary : Type 0 where
  pub opens : Bool
  pub read : Array → (p n : ℕ) → Array
  pub failed : Bool

-- `load_binary_file`, which returns 0 or -1
unfoldable pub load_binary_file : Binary → Vm → ℕ → Status × Vm
load_binary_file file vm load_addr =
    if not file.opens || leb vm.memory_size load_addr then (error, vm) else (
      if file.failed then error else success,
      record vm { memory = file.read vm.memory load_addr (vm.memory_size - load_addr) },
    )

-- `return 1` if the step fails, and what the loop does next.
unfoldable pub unless_error : (Vm → Outcome (Status × Vm)) → Status × Vm → Outcome (Status × Vm)
unless_error next (error, vm) = ok (error, vm)
unless_error next (success, vm) = next vm

-- The `while` loop of `main`; `left` is `MAX_EXECUTION_STEPS - step_count`.
unfoldable pub execute_program : ℕ → Vm → Outcome (Status × Vm)
execute_program zero vm = ok (success, vm)
execute_program (suc left) vm = elim vm.running [
  | false ↦ ok (success, vm)
  | true ↦ step vm >>= unless_error (execute_program left)
]

-- The rest of `main`: `return 1` is an error. The end by a halt and the end by the bound both
-- return 0.
unfoldable pub run_binary : Binary → Vm → (load_addr : ℕ) → Outcome (Status × Vm)
run_binary file vm load_addr =
    unless_error
      (λ vm. execute_program max_execution_steps (record vm { pc = load_addr; running = true }))
      (load_binary_file file (vm_init vm vm_memory vm_memory_size) load_addr)
