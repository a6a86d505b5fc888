-- ===== src/Tests/Programs.antt =====
-- Small programs in assembly.
use crisp.Base.{ℕ, ◌^◌, ◌<◌, ◌≡◌, refl, arith, true, List, [], ◌∷◌, Option, some, ok}
use crisp.Array.{Array}
use crisp.CString.Literal.{literal, filled, filled-IsString}
use crisp.CString.Search.{IsString}
use crisp.Asm.Symbols.{AsmState}
use crisp.Asm.Symbols.Total.{IsState}
use crisp.Asm.Line.{Verdict, assemble_line}
use crisp.Asm.Line.Advance.{size_of_line}
use crisp.Asm.Line.Moves.{Follows}
use crisp.Asm.Line.Follows.{assemble_line-size_of_line}
use crisp.Asm.Driver.{Files, pass_loop, assembler}
use crisp.Asm.Driver.Passes.{
  AreLines, no_line, next_line, count, program_size, Passed, pass_loop-program_size,
}
use crisp.Asm.Driver.Program.{Exits, assembler-program_size}
use crisp.Tests.Assembler.{fresh}

pub fresh-IsState : (pass : ℕ) → IsState (record fresh { pass = pass })
fresh-IsState pass = record {
  table = record {
    few = omega arith;
    room = λ i. refl;
    names = λ i below. absurd (omega arith);
    addresses = λ i below. absurd (omega arith);
  };
  address = omega arith;
  bytes = λ i. omega arith;
  output = refl;
  written = omega arith;
}

abbrev label_line : Array
label_line = literal "go: ADDI R1, R0, 42\n"

abbrev jump_line : Array
jump_line = literal "  J go ; again\n"

label_line-filled : filled label_line ≡ true
unfolding filled literal
label_line-filled = refl

label_line-IsString : IsString label_line 20
unfolding literal
label_line-IsString = filled-IsString label_line label_line-filled

jump_line-filled : filled jump_line ≡ true
unfolding filled literal
jump_line-filled = refl

jump_line-IsString : IsString jump_line 15
unfolding literal
jump_line-IsString = filled-IsString jump_line jump_line-filled

abbrev pub program : List Array
program = label_line ∷ jump_line ∷ []

pub program-AreLines : AreLines program
program-AreLines = next_line 20 label_line-IsString (next_line 15 jump_line-IsString no_line)

pub program-few : count program < 2 ^ 31
unfolding count
program-few = omega arith

assemble_line-size_of_line_example :
    (r : Verdict × AsmState) × (size : Option ℕ) × (assemble_line fresh label_line ≡ ok r)
    × (size_of_line label_line ≡ ok size)
    × Follows fresh r size
assemble_line-size_of_line_example =
    assemble_line-size_of_line label_line 20 label_line-IsString fresh (fresh-IsState 1)

pass_loop-program_size_example :
    (t : AsmState) × (size : Option ℕ) × (pass_loop fresh program ≡ ok t)
    × (program_size program ≡ ok size)
    × Passed fresh (count program) t size
pass_loop-program_size_example =
    pass_loop-program_size fresh program (fresh-IsState 1) program-AreLines
      (omega (arith, program-few))

abbrev pub second_pass : AsmState
second_pass = record fresh { pass = 2 }

abbrev files : Files
files = record { first = some program; second = some program; created = true; written = λ a n. n }

assembler-program_size_example :
    (r : ℕ × AsmState) × (size : Option ℕ) × (assembler fresh files ≡ ok r)
    × (program_size program ≡ ok size)
    × IsState r.1
    × Exits size r
assembler-program_size_example =
    assembler-program_size files program
      (record { first = refl; second = refl; created = refl; written = λ a n. refl })
      program-AreLines program-few fresh
      (record { names = λ i. refl; output = refl; bytes = λ i. omega arith })
