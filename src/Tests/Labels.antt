-- ===== src/Tests/Labels.antt =====
-- Labels in the passes, and a branch to one.
use crisp.Base.{ℕ, ◌+◌, ◌≡◌, refl, arith, true, ◌==◌, if◌then◌else◌, ok, u32}
use crisp.Base.Int.{pos}
use crisp.Array.{Array, load}
use crisp.CString.{strcmp, strcmp_loop}
use crisp.CString.Literal.{literal, filled, filled-IsString}
use crisp.CString.Search.{IsString}
use crisp.Asm.Symbols.{AsmState, Symbol, find_symbol, find_loop, get_symbol}
use crisp.Asm.Symbols.Total.{IsState}
use crisp.Asm.Operands.{branch_target}
use crisp.Asm.Operands.Targets.{branch_if-branch_target}
use crisp.Asm.Driver.{pass_loop}
use crisp.Asm.Driver.Labels.{find_symbol-pass_loop}
use crisp.Vm.Execute.Control.{branch_if}
use crisp.Tests.Assembler.{fresh}
use crisp.Tests.Guests.{kernel, addi_program}
use crisp.Tests.Machine.{ei}
use crisp.Tests.Programs.{program, program-AreLines, program-few}

-- A table with the label `go` at 16.
abbrev go_symbol : Symbol
go_symbol = record {
  name = record { size = 64; at = (literal "go").at };
  address = 16;
  defined = true;
}

abbrev labelled : AsmState
labelled = record fresh {
  symbols = λ i. if i == 0 then go_symbol else fresh.symbols i;
  num_symbols = 1;
  current_address = 40;
}

abbrev go : Array
go = literal "go"

go-filled : filled go ≡ true
unfolding filled literal
go-filled = refl

go-IsString : IsString go 2
unfolding literal
go-IsString = filled-IsString go go-filled

go_symbol-IsString : IsString go_symbol.name 2
go_symbol-IsString = record {
  room = omega arith;
  terminator = go-IsString.terminator;
  characters = go-IsString.characters;
}

go_found : find_symbol labelled go ≡ ok (pos 0)
unfolding find_symbol find_loop get_symbol strcmp strcmp_loop load literal
go_found = refl

labelled-IsState : IsState labelled
labelled-IsState = record {
  table = record {
    few = omega arith;
    room = λ i. ground arith;
    names = λ i below. let first : i ≡ 0 = omega arith in rw first (2, go_symbol-IsString);
    addresses = λ i below. ground arith;
  };
  address = omega arith;
  bytes = λ i. omega arith;
  output = refl;
  written = omega arith;
}

find_symbol-pass_loop_example :
    (t : AsmState) × (pass_loop labelled program ≡ ok t)
    × (find_symbol t go ≡ ok (pos 0))
    × (t.symbols 0 ≡ labelled.symbols 0)
find_symbol-pass_loop_example =
    find_symbol-pass_loop labelled program go 2 0 labelled-IsState program-AreLines
      (omega (arith, program-few)) go-IsString go_found refl

branch_if-branch_target_example :
    (imm : ℕ) × (branch_target labelled go ≡ ok imm)
    × (branch_if true
          (record ei { immediate = imm })
          (record (kernel addi_program) { pc = u32 (0x1000 + 40 + 8) })
        ≡ ok (record (kernel addi_program) { pc = u32 (0x1000 + 16) }))
branch_if-branch_target_example =
    branch_if-branch_target labelled labelled-IsState.table go 2 go-IsString 0 go_found ei
      (kernel addi_program) 0x1000
