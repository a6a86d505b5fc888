-- ===== src/Vm/Runner/Assembled.antt =====
-- An assembled program in the machine of src/vm/main.c.
use crisp.Base.{
  ℕ, ◌+◌, ◌-◌, ◌%◌, ◌^◌, ◌≤◌, ◌<◌, ◌≡◌, ◌==◌, leb, ltb, not, bit_and, refl, sym, ◌∙◌, arith, true,
  false, List, ◌∷◌, ok, u32,
}
use crisp.Base.Bits.{and_mask}
use mathlib.Core.Path.{subst}
use crisp.Array.{Array}
use crisp.Vm.State.{Vm}
use crisp.Vm.Interrupts.Priority.{check_interrupts-disabled}
use crisp.Vm.Mmu.{invalid_address, translate_address}
use crisp.Vm.Instruction.{Instruction}
use crisp.Vm.Step.{decode, perform, fetch, cycle, step}
use crisp.Vm.Invariant.{Fits}
use crisp.Vm.Runner.{Binary, load_binary_file}
use crisp.Vm.Runner.Bounded.{Reads}
use crisp.Asm.Symbols.{AsmState, max_output_size}
use crisp.Asm.Symbols.Total.{IsState}
use crisp.Asm.Driver.{pass_loop}
use crisp.Asm.Driver.Passes.{AreLines, count}
use crisp.Asm.Driver.Output.{HasCode, decode-same}
use crisp.Asm.Driver.Assembles.{IsInstruction, pass_loop-HasCode}

-- A step in kernel mode with interrupts disabled executes the instruction that the PC is at.
module _ (vm : Vm) (word : vm.memory_size < 2 ^ 32) (kernel : vm.kernel_mode ≡ true)
    (off : vm.interrupts.enabled ≡ false) (aligned : vm.pc % 8 ≡ 0)
    (inside : vm.pc + 8 ≤ vm.memory_size) where
  translate_address-kernel : translate_address vm vm.pc false true ≡ ok (vm.pc, vm)
  unfolding translate_address
  translate_address-kernel = rw kernel refl

  step-decode : (inst : Instruction) → decode vm.memory vm.pc ≡ ok inst → step vm ≡ perform inst vm
  unfolding step cycle fetch
  step-decode inst decoded =
      let low : bit_and vm.pc 0x7 ≡ 0 = and_mask 3 vm.pc ∙ aligned in
      let real : (vm.pc == invalid_address) ≡ false = ground (arith, word) in
      let room : ltb vm.memory_size (u32 (vm.pc + 8)) ≡ false = ground (arith, word) in
      rw (check_interrupts-disabled vm off, low, translate_address-kernel, real, room, decoded) refl

-- The file has the first `size` bytes of the output, and `fread` delivers as many as it asks for.
pub record Delivers (file : Binary) (output : Array) (size : ℕ) : Type 0 where
  pub opens : file.opens ≡ true
  pub content :
      (m : Array) (p n : ℕ)
      → p + n ≤ m.size
      → (j : ℕ) → j < n
      → j < size
      → (file.read m p n).at (p + j) ≡ output.at j

-- The machine after the load, with the PC behind `offset` bytes of the program.
abbrev pub loaded_at : Binary → Vm → (load_addr offset : ℕ) → Vm
loaded_at file vm load_addr offset = record (load_binary_file file vm load_addr).1 {
  pc = load_addr + offset;
}

module _ (file : Binary) (reads : Reads file) (vm : Vm) (f : Fits vm) (load_addr : ℕ) (u : AsmState)
    (offset : ℕ) (inst : Instruction) (code : HasCode u offset inst)
    (delivers : Delivers file u.output u.output_size)
    (inside : load_addr + offset + 8 ≤ vm.memory_size) where
  abbrev room : ℕ
  room = vm.memory_size - load_addr

  abbrev memory : Array
  memory = file.read vm.memory load_addr room

  load-Delivers : (load_binary_file file vm load_addr).1 ≡ record vm { memory = memory }
  unfolding load_binary_file
  load-Delivers =
      let opens : not file.opens ≡ false = rw delivers.opens refl in
      let below : leb vm.memory_size load_addr ≡ false = ground arith in rw (opens, below) refl

  decode-memory : decode memory (load_addr + offset) ≡ ok inst
  decode-memory =
      let fits : load_addr + room ≤ vm.memory.size = ground (arith, f.allocated) in
      decode-same memory u.output (load_addr + offset) offset
        (omega (arith, f.allocated, reads.size vm.memory load_addr room fits))
        (omega (arith, code.written, code.most, code.size))
        (reads.bytes vm.memory load_addr room fits f.bytes) code.bytes
        (λ j below. ground (
          arith,
          delivers.content vm.memory load_addr room fits (offset + j) (omega arith)
              (omega (arith, code.written)),
        ))
      ∙ code.decoded

  step-HasCode :
      vm.kernel_mode ≡ true
      → vm.interrupts.enabled ≡ false
      → (load_addr + offset) % 8 ≡ 0
      → step (loaded_at file vm load_addr offset)
        ≡ perform inst (loaded_at file vm load_addr offset)
  step-HasCode kernel off aligned =
      subst
        (λ l.
          step (record l { pc = load_addr + offset })
          ≡ perform inst (record l { pc = load_addr + offset }))
        (sym load-Delivers)
        (step-decode (record vm { memory = memory; pc = load_addr + offset }) f.size kernel off
          aligned inside inst decode-memory)

-- In a well-formed state `s` of the second pass with eight bytes of room, for the text of a line
-- that writes an instruction and any lines that follow, strings all and too few to overflow the
-- count of errors: if a file has the output of the pass over them and `fread` delivers it, and
-- writes bytes, and only to the range that it is given, then a step of a well-formed machine in
-- kernel mode with interrupts disabled, which has loaded the file at an address where the
-- instruction fits and has the PC at the line's place in it, a multiple of eight, performs the
-- instruction.
pub step-IsInstruction :
    (s : AsmState) (text : Array) (inst : Instruction) (lines : List Array) (u : AsmState)
    → IsState s
    → s.pass ≡ 2
    → s.output_size + 8 ≤ max_output_size
    → IsInstruction s text inst
    → AreLines lines
    → s.errors + count lines < 2 ^ 31
    → pass_loop s (text ∷ lines) ≡ ok u
    → (file : Binary) → Reads file
    → Delivers file u.output u.output_size
    → (vm : Vm) → Fits vm
    → vm.kernel_mode ≡ true
    → vm.interrupts.enabled ≡ false
    → (load_addr : ℕ) → load_addr + s.output_size + 8 ≤ vm.memory_size
    → (load_addr + s.output_size) % 8 ≡ 0
    → step (loaded_at file vm load_addr s.output_size)
      ≡ perform inst (loaded_at file vm load_addr s.output_size)
step-IsInstruction s text inst lines u w second room i strings few run file reads delivers vm f
      kernel off load_addr inside aligned =
    let (t, run', code) = pass_loop-HasCode s text inst lines w second room i strings few in
    let same : t ≡ u = cc in
    step-HasCode file reads vm f load_addr u s.output_size inst
      (subst (λ t. HasCode t s.output_size inst) same code) delivers inside kernel off aligned
