-- ===== src/Vm/Run.antt =====
-- `c32_vm_run` of src/vm/c32_vm.c. A guest may run for ever: the loop is given the number of
-- rounds it may take, and says when they did not suffice.
pub mod Bigstep
use crisp.Base.{ℕ, zero, suc, Bool, true, false, Outcome, ok, ◌>>=◌}
use crisp.Vm.State.{Vm}
use crisp.Vm.Step.{Status, success, error, step}

-- The loop has ended, or is still to go on, in this state.
pub data Run : Type 0 where
  stopped unfinished : Vm → Run

-- `if (c32_vm_step(vm) != 0) break;`, and what the loop does next.
unfoldable pub continue : (Vm → Outcome Run) → Status × Vm → Outcome Run
continue next (error, vm) = ok (stopped vm)
continue next (success, vm) = next vm

-- `while (vm->running)`
unfoldable pub run_loop : ℕ → Vm → Outcome Run
run_loop zero vm = ok (unfinished vm)
run_loop (suc left) vm = elim vm.running [
  | false ↦ ok (stopped vm)
  | true ↦ step vm >>= continue (run_loop left)
]

unfoldable pub vm_run : ℕ → Vm → Outcome Run
vm_run left vm = run_loop left (record vm { running = true })
