-- ===== src/Tests/Runner.antt =====
-- The runner of src/vm/main.c, and a step that is free of undefined behaviour.
use mathlib.Core.Path.{subst}
use crisp.Base.{◌+◌, ◌≡◌, refl, arith, leb, ltb, ◌&&◌, true, false, if◌then◌else◌, ok}
use crisp.Array.{update, load, store}
use crisp.CString.{memcpy, memcpy_loop}
use crisp.Vm.Memory.{read_word, read_word_on}
use crisp.Vm.State.{Vm, vm_init}
use crisp.Vm.Interrupts.{Check, check_interrupts, raise_interrupt}
use crisp.Vm.Mmu.{translate_address}
use crisp.Vm.Instruction.{Instruction}
use crisp.Vm.Opcode.{opcode_of, select, opcodes, code}
use crisp.Vm.Step.{Status, success, step, cycle, fetch, decode, perform}
use crisp.Vm.Execute.{execute, exec_selected}
use crisp.Vm.Invariant.{IsValid}
use crisp.Vm.Runner.{
  Binary, unless_error, execute_program, run_binary, load_binary_file, vm_memory, vm_memory_size,
}
use crisp.Vm.Runner.Bounded.{Reads, run_binary-IsValid}
use crisp.Vm.Safety.{HasRegisters, IsBenign}
use crisp.Vm.Safety.Step.{IsReady, step-Returns}
use crisp.Tests.Guests.{kernel, addi_program, addi_program-AreBytes, kernel-IsValid}

-- A file of bytes 0xFF, which is long enough to fill the memory: its first opcode is unknown.
abbrev pub filler : Binary
filler = record {
  opens = true;
  read = λ m p n. record m { at = λ i. if leb p i && ltb i (p + n) then 0xFF else m.at i };
  failed = false;
}

pub filler-Reads : Reads filler
filler-Reads = record { size = λ m p n h. refl; bytes = λ m p n h b j. ground (arith, b j) }

abbrev started : Vm
started =
    record (load_binary_file filler (vm_init (kernel addi_program) vm_memory vm_memory_size)
      0x1000).1 { pc = 0x1000; running = true }

abbrev pub stopped_at_once : Vm
stopped_at_once =
    let vm = record (raise_interrupt (record started { pc = 0x1008 }) 1) { running = false } in
    record vm { regs = update vm.regs 0 0 }

run_filler : run_binary filler (kernel addi_program) 0x1000 ≡ ok (success, stopped_at_once)
unfolding run_binary load_binary_file unless_error execute_program step check_interrupts cycle
    translate_address fetch decode load read_word read_word_on memcpy memcpy_loop store perform
    execute opcode_of select opcodes code exec_selected vm_init raise_interrupt
run_filler = refl

run_binary-IsValid_example : IsValid stopped_at_once
run_binary-IsValid_example =
    run_binary-IsValid filler filler-Reads 0x1000 (omega arith) (kernel addi_program)
      stopped_at_once success run_filler

abbrev addi : Instruction
addi = record { opcode = 5; rs = 0; rt = 1; rd = 0; immediate = 42 }

addi-IsReady : IsReady (kernel addi_program)
unfolding translate_address decode load read_word read_word_on memcpy memcpy_loop store opcode_of
    select opcodes code
addi-IsReady = record {
  placed = record { table = omega arith; entries = λ k h. absurd (omega arith) };
  pc = omega arith;
  instruction = λ (p, vm) i e d.
      let at_zero : p ≡ 0 = cc e in
      let fetched : decode (kernel addi_program).memory 0 ≡ ok i =
        subst (λ p. decode (kernel addi_program).memory p ≡ ok i) at_zero d in
      let is_addi : addi ≡ i = cc fetched in
      subst
        (λ i.
          HasRegisters i
          × IsBenign (opcode_of i.opcode) i (record (kernel addi_program) { pc = 8 }))
        is_addi (record { rs = omega arith; rt = omega arith; rd = omega arith }, tt);
}

check_interrupts-IsReady :
    (c : Check) (vm' : Vm) → check_interrupts (kernel addi_program) ≡ ok (c, vm') → IsReady vm'
unfolding check_interrupts
check_interrupts-IsReady c vm' e = subst IsReady (cc e) addi-IsReady

step-Returns_example :
    (s : Status) × (vm' : Vm) × (step (kernel addi_program) ≡ ok (s, vm')) × IsValid vm'
step-Returns_example =
    step-Returns (kernel addi_program) (kernel-IsValid addi_program addi_program-AreBytes)
      (λ on. omega arith) check_interrupts-IsReady
