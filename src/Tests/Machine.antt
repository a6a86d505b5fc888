-- ===== src/Tests/Machine.antt =====
-- Steps, translation, privileges and the life cycle of the small machines.
use crisp.Base.{
  ℕ, ◌+◌, ◌^◌, ◌<◌, ◌≡◌, refl, arith, true, false, ◌==◌, if◌then◌else◌, ok, some, none,
}
use crisp.Base.Int.{◌+ℤ◌}
use crisp.Array.{update, load, store}
use crisp.CString.{memcpy, memcpy_loop}
use crisp.Vm.Memory.{read_word, read_word_on}
use crisp.Vm.State.{Vm, get_reg, set_reg}
use crisp.Vm.Interrupts.{check_interrupts, raise_interrupt}
use crisp.Vm.Mmu.{translate_address}
use crisp.Vm.Mmu.PageTable.{answer, walk, allows, translate_address-walk}
use crisp.Vm.Instruction.{Instruction}
use crisp.Vm.Opcode.{opcode_of, select, opcodes, code, interrupt, Interrupt}
use crisp.Vm.Execute.{execute, exec_selected, exec_opcode}
use crisp.Vm.Execute.Registers.{exec_arithmetic, reg_imm}
use crisp.Vm.Execute.System.{exec_interrupt, exec_system, privileged}
use crisp.Vm.Step.{success, step, cycle, fetch, decode, perform}
use crisp.Vm.Run.{stopped, run_loop, continue}
use crisp.Vm.Run.Bigstep.{RunsTo, halted, steps, run_loop-RunsTo, RunsTo-run_loop, RunsTo-IsValid}
use crisp.Vm.Invariant.{IsValid}
use crisp.Vm.Invariant.Step.{step-IsValid}
use crisp.Vm.Privilege.{is_privileged, exec_opcode-privileged}
use crisp.Vm.Privilege.Confined.{Confined}
use crisp.Vm.Privilege.User.{execute-Confined}
use crisp.Asm.Encode.{InRange}
use crisp.Tests.Guests.{
  kernel, user, addi_program, one_page, addi_program-AreBytes, one_page-AreBytes, kernel-IsValid,
  user-Fits,
}

abbrev after_addi : Vm
after_addi = record (kernel addi_program) {
  pc = 8;
  regs = update (update (kernel addi_program).regs 1 42) 0 0;
}

addi_step : step (kernel addi_program) ≡ ok (success, after_addi)
unfolding step check_interrupts cycle translate_address fetch decode load read_word read_word_on
    memcpy memcpy_loop store perform execute opcode_of select opcodes code exec_selected exec_opcode
    exec_arithmetic reg_imm get_reg set_reg ◌+ℤ◌
addi_step = refl

step-IsValid_example : IsValid after_addi
step-IsValid_example =
    step-IsValid (kernel addi_program) after_addi success
      (kernel-IsValid addi_program addi_program-AreBytes) addi_step

translate_address-walk_example :
    translate_address (user one_page) 0x10 false true
    ≡ ok (answer (user one_page) (walk (user one_page) 0x10 false true))
translate_address-walk_example =
    translate_address-walk (user one_page) 0x10 false true (user-Fits one_page one_page-AreBytes)
      refl refl (omega arith)

-- That page may be executed, and not written.
page_executable : walk (user one_page) 0x10 false true ≡ some 0x10
unfolding walk allows
page_executable = refl

page_read_only : walk (user one_page) 0x10 true false ≡ none
unfolding walk allows
page_read_only = refl

abbrev pub ei : Instruction
ei = record { opcode = 0xF2; rs = 0; rt = 0; rd = 0; immediate = 0 }

pub ei-InRange : InRange ei
ei-InRange = record {
  opcode = omega arith;
  rs = omega arith;
  rt = omega arith;
  rd = omega arith;
  immediate = omega arith;
}

ei_in_user_mode : execute ei (user one_page) ≡ ok (raise_interrupt (user one_page) 7)
unfolding execute opcode_of select opcodes code exec_selected exec_opcode exec_interrupt privileged
ei_in_user_mode = refl

execute-Confined_example : Confined (user one_page) (raise_interrupt (user one_page) 7)
execute-Confined_example =
    execute-Confined ei (user one_page) (raise_interrupt (user one_page) 7) refl ei_in_user_mode

is_privileged-ei : is_privileged (interrupt Interrupt.ei) ≡ true
unfolding is_privileged
is_privileged-ei = refl

exec_opcode-privileged_example :
    exec_opcode (interrupt Interrupt.ei) ei (user one_page) ≡ ok (raise_interrupt (user one_page) 7)
exec_opcode-privileged_example =
    exec_opcode-privileged (interrupt Interrupt.ei) ei (user one_page) is_privileged-ei refl

-- `syscall`, in the machine's first eight bytes: it raises interrupt 4 and halts.
abbrev pub syscall_program : ℕ → ℕ
syscall_program i = if i == 0 then 0xF0 else 0

syscall_program-AreBytes : (i : ℕ) → syscall_program i < 2 ^ 8
syscall_program-AreBytes i = ground arith

abbrev pub after_syscall : Vm
after_syscall = record (raise_interrupt (record (kernel syscall_program) { pc = 8 }) 4) {
  running = false;
  regs = update (kernel syscall_program).regs 0 0;
}

pub syscall_step : step (kernel syscall_program) ≡ ok (success, after_syscall)
unfolding step check_interrupts cycle translate_address fetch decode load read_word read_word_on
    memcpy memcpy_loop store perform execute opcode_of select opcodes code exec_selected exec_opcode
    exec_system raise_interrupt
syscall_step = refl

syscall_runs : RunsTo (kernel syscall_program) after_syscall
syscall_runs = steps refl syscall_step (halted refl)

syscall_loop : run_loop 2 (kernel syscall_program) ≡ ok (stopped after_syscall)
unfolding run_loop
syscall_loop = rw syscall_step (unfold continue in refl)

run_loop-RunsTo_example : RunsTo (kernel syscall_program) after_syscall
run_loop-RunsTo_example = run_loop-RunsTo 2 (kernel syscall_program) after_syscall syscall_loop

RunsTo-run_loop_example :
    (enough : ℕ) × ((extra : ℕ)
      → run_loop (enough + extra) (kernel syscall_program) ≡ ok (stopped after_syscall))
RunsTo-run_loop_example = RunsTo-run_loop syscall_runs

RunsTo-IsValid_example : IsValid after_syscall
RunsTo-IsValid_example =
    RunsTo-IsValid (kernel syscall_program) after_syscall
      (kernel-IsValid syscall_program syscall_program-AreBytes) syscall_runs
