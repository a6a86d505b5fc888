-- ===== src/Tests/Assembler.antt =====
-- The symbol table and the register names at small inputs.
use crisp.Base.{◌≡◌, refl, arith, ◌==◌, if◌then◌else◌, ok, false}
use crisp.Base.Int.{ℤ, pos, negsuc}
use crisp.Array.{Array, load}
use crisp.CString.{strlen, strlen_loop, strcmp, strcmp_loop}
use crisp.CString.Search.{IsString}
use crisp.Asm.Symbols.{AsmState, find_symbol, find_loop, add_symbol}
use crisp.Asm.Symbols.Lookup.{find_symbol-add_symbol}
use crisp.Asm.Registers.{
  register_names, number_loop, in_range, parse_number, parse_name, parse_register,
}
use crisp.Asm.Registers.Total.{IsRegister, parse_register-IsRegister}
use crisp.Tests.Strings.{ab, ab-IsString}

-- A table without entries.
abbrev pub fresh : AsmState
fresh = record {
  symbols = λ i. record { name = record { size = 64; at = λ k. 0 }; address = 0; defined = false };
  num_symbols = 0;
  current_address = 0;
  output = record { size = 65536; at = λ k. 0 };
  output_size = 0;
  pass = 1;
  errors = 0;
}

fresh_find : find_symbol fresh ab ≡ ok (negsuc 0)
unfolding find_symbol find_loop
fresh_find = refl

find_symbol-add_symbol_example :
    (state' : AsmState) × (add_symbol fresh ab 0x1000 ≡ ok (pos 0, state'))
    × (find_symbol state' ab ≡ ok (pos 0))
find_symbol-add_symbol_example =
    find_symbol-add_symbol fresh ab 2 0x1000 ab-IsString (omega arith) (omega arith) fresh_find
      (omega arith) refl

-- "R29"
abbrev r29 : Array
r29 = record {
  size = 4;
  at = λ i. if i == 0 then 82 else if i == 1 then 50 else if i == 2 then 57 else 0;
}

parse_r29 : parse_register r29 ≡ ok (pos 29)
unfolding parse_register strlen strlen_loop load parse_name register_names strcmp strcmp_loop
    parse_number number_loop in_range
parse_r29 = refl

r29-IsString : IsString r29 3
r29-IsString = record { room = omega arith; terminator = refl; characters = λ k h. ground arith }

parse_register-IsRegister_example : (z : ℤ) × (parse_register r29 ≡ ok z) × IsRegister z
parse_register-IsRegister_example = parse_register-IsRegister r29 3 r29-IsString
