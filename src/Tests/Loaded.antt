-- ===== src/Tests/Loaded.antt =====
-- A line of assembly that is assembled, loaded and run.
use crisp.Base.{
  ◌+◌, ◌-◌, ◌≤◌, ◌≡◌, arith, leb, ltb, ◌&&◌, true, false, if◌then◌else◌, [], ◌∷◌, ok, refl,
}
use crisp.Vm.State.{Vm, vm_init}
use crisp.Vm.Lifecycle.{vm_init-IsValid}
use crisp.Vm.Invariant.{IsValid}
use crisp.Vm.Step.{step, perform}
use crisp.Vm.Runner.{Binary, vm_memory, vm_memory_size, default_load_addr}
use crisp.Vm.Runner.Bounded.{Reads}
use crisp.Vm.Runner.Assembled.{Delivers, loaded_at, step-IsInstruction}
use crisp.Asm.Symbols.{AsmState}
use crisp.Asm.Driver.{pass_loop}
use crisp.Asm.Driver.Passes.{no_line}
use crisp.Asm.Driver.Output.{HasCode}
use crisp.Asm.Driver.Assembles.{pass_loop-HasCode}
use crisp.Tests.Guests.{kernel, addi_program}
use crisp.Tests.Programs.{second_pass, fresh-IsState}
use crisp.Tests.Texts.{typed, addi_42, typed-IsInstruction, no_more}

typed_pass : (u : AsmState) × (pass_loop second_pass (typed ∷ []) ≡ ok u) × HasCode u 0 addi_42
typed_pass =
    pass_loop-HasCode second_pass typed addi_42 [] (fresh-IsState 2) refl (omega arith)
      typed-IsInstruction no_line no_more

-- The state after the pass over the line "go: ADDI R1, zero, -42 ; x".
abbrev assembled : AsmState
assembled = typed_pass.0

-- The file that the assembler has written.
abbrev program_file : Binary
program_file = record {
  opens = true;
  read = λ m p n. record m {
    at = λ i.
        if leb p i && ltb i (p + n) && ltb i (p + assembled.output_size)
        then assembled.output.at (i - p)
        else m.at i;
  };
  failed = false;
}

program_file-Reads : Reads program_file
program_file-Reads = record {
  size = λ m p n h. refl;
  bytes = λ m p n h b j. ground (arith, b j, typed_pass.2.bytes (j - p));
}

program_file-Delivers : Delivers program_file assembled.output assembled.output_size
program_file-Delivers = record { opens = refl; content = λ m p n h j below short. ground arith }

abbrev machine : Vm
machine = vm_init (kernel addi_program) vm_memory vm_memory_size

machine-IsValid : IsValid machine
machine-IsValid =
    vm_init-IsValid (kernel addi_program) vm_memory vm_memory_size (λ i. omega arith) (omega arith)
      (omega arith)

machine_kernel : machine.kernel_mode ≡ true
unfolding vm_init
machine_kernel = refl

machine_off : machine.interrupts.enabled ≡ false
unfolding vm_init
machine_off = refl

machine_room : default_load_addr + 0 + 8 ≤ machine.memory_size
unfolding vm_init
machine_room = omega arith

step-IsInstruction_example :
    step (loaded_at program_file machine default_load_addr 0)
    ≡ perform addi_42 (loaded_at program_file machine default_load_addr 0)
step-IsInstruction_example =
    step-IsInstruction second_pass typed addi_42 [] assembled (fresh-IsState 2) refl (omega arith)
      typed-IsInstruction no_line no_more typed_pass.1 program_file program_file-Reads
      program_file-Delivers machine machine-IsValid.fits machine_kernel machine_off
      default_load_addr machine_room refl
