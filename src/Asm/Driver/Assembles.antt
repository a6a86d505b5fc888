-- ===== src/Asm/Driver/Assembles.antt =====
-- The second pass of src/asm/c32asm.c on a line that writes an instruction.
use crisp.Base.{length, ℕ, ◌+◌, ◌^◌, ◌≤◌, ◌<◌, ◌≡◌, arith, List, ◌∷◌, ok}
use crisp.Array.{Array}
use crisp.CString.Search.{IsString}
use crisp.Vm.Instruction.{Instruction}
use crisp.Vm.Step.{decode}
use crisp.Asm.Encode.{InRange}
use crisp.Asm.Symbols.{AsmState, max_output_size}
use crisp.Asm.Symbols.Total.{IsState}
use crisp.Asm.Mnemonics.Names.{code-lt}
use crisp.Asm.Tokens.Spells.{Spells}
use crisp.Asm.Operands.Range.{Operands-InRange}
use crisp.Asm.Line.Texts.{Writes, writes, Starts, assemble_line-Writes}
use crisp.Asm.Driver.{strip_newline, count_error, pass_loop}
use crisp.Asm.Driver.Passes.{AreLines, count}
use crisp.Asm.Driver.Output.{HasCode, pass_loop-emit-HasCode}

Writes-InRange :
    {s : AsmState} {words : List Array} {inst : Instruction} → Writes s words inst → InRange inst
Writes-InRange (writes op has same ops) = Operands-InRange (code-lt op) ops

-- The text of a line, with its end of line, that writes an instruction: it is a string, of at most
-- eight words, short enough for a token each, the name of an opcode that has a form in
-- Asm/Operands/Formats and its operands in the order of the form, behind a label and its colon or
-- not.
pub record IsInstruction (s : AsmState) (text : Array) (inst : Instruction) : Type 0 where
  pub line : Array
  pub n : ℕ
  pub start : ℕ
  pub words : List Array
  pub strip : strip_newline text ≡ ok line
  pub string : IsString line n
  pub starts : Starts line start
  pub spells : Spells line start words
  pub few : length words ≤ 8
  pub writes_inst : Writes s words inst

module _ (s : AsmState) (text : Array) (inst : Instruction) (lines : List Array) (w : IsState s)
    (second : s.pass ≡ 2) (room : s.output_size + 8 ≤ max_output_size)
    (i : IsInstruction s text inst) (strings : AreLines lines)
    (few : s.errors + count lines < 2 ^ 31) where
  pub pass_loop-HasCode :
      (u : AsmState) × (pass_loop s (text ∷ lines) ≡ ok u) × HasCode u s.output_size inst
  unfolding pass_loop count_error
  pass_loop-HasCode =
      let (t, u, emitted, run, code) =
        pass_loop-emit-HasCode s w second inst (Writes-InRange i.writes_inst) room lines strings
          few in
      (
        u,
        rw
            (
              i.strip,
              assemble_line-Writes i.line i.n i.string s i.start i.words inst (omega arith) i.starts
                  i.spells i.few i.writes_inst,
              emitted,
            )
            run,
        code,
      )

  -- In a well-formed state of the second pass with eight bytes of room, for the text of a line that
  -- writes an instruction, and any lines that follow, strings all and too few to overflow the count
  -- of errors: the pass over them ends, and decoding at the line's place in the output gives the
  -- instruction that is written, its registers, its number, the distance to its label, or the
  -- address of the label of a jump for a program loaded at 0x1000. Words behind the operands do not
  -- matter.
  pub decode-pass_loop-IsInstruction :
      (u : AsmState) × (pass_loop s (text ∷ lines) ≡ ok u)
      × (decode u.output s.output_size ≡ ok inst)
  decode-pass_loop-IsInstruction = let (u, run, code) = pass_loop-HasCode in (u, run, code.decoded)
