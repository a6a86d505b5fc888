-- ===== src/Tests/Names.antt =====
-- The names of src/tools/bin2h.c, and a mnemonic.
use crisp.Base.{ℕ, ◌≡◌, refl, arith, ◌==◌, ok, fault, inr, true, not}
use crisp.Base.Table.{all_below, all_below_sound}
use crisp.Base.Int.{pos}
use crisp.Array.{Array}
use crisp.CString.Literal.{literal, filled, filled-IsString}
use crisp.CString.Search.{IsString}
use crisp.Vm.Opcode.{arithmetic, Arithmetic, code}
use crisp.Asm.Mnemonics.{parse_opcode}
use crisp.CString.Same.{SameString}
use crisp.Asm.Mnemonics.Names.{mnemonic, parse_opcode-mnemonic}
use crisp.Tools.Bin2h.{get_basename, filename_to_identifier}
use crisp.Tools.Bin2h.Names.{
  IsBasename, IsStem, IsIdentifier, get_basename-IsBasename, filename_to_identifier-characters,
  filename_to_identifier-fault,
}

abbrev pub path : Array
path = literal "bin/a-1.bin"

path-filled : filled path ≡ true
unfolding filled literal
path-filled = refl

pub path-IsString : IsString path 11
unfolding literal
path-IsString = filled-IsString path path-filled

get_basename-IsBasename_example :
    (base : ℕ) × (get_basename path 0 ≡ ok base) × IsBasename path 11 path-IsString 0 base
get_basename-IsBasename_example = get_basename-IsBasename path 11 path-IsString 0 (omega arith)

stem-no_dot : all_below 7 (λ j. not (path.at j == b'.')) ≡ true
unfolding all_below literal
stem-no_dot = refl

pub path-IsStem : IsStem path 11 4 7
unfolding literal
path-IsStem = record {
  from = omega arith;
  inside = omega arith;
  no_dot =
      λ j a b. ground (arith, all_below_sound 7 (λ j. not (path.at j == b'.')) stem-no_dot j b);
  ends = inr refl;
}

abbrev identifier : ℕ → Array
identifier size = record { size = size; at = λ i. 0 }

filename_to_identifier-characters_example :
    (out : Array) × (filename_to_identifier path 4 (identifier 256) ≡ ok out)
    × IsIdentifier path 11 path-IsString 7 4 out
filename_to_identifier-characters_example =
    filename_to_identifier-characters path 11 path-IsString 7 4 (identifier 256) path-IsStem
      (omega arith)

filename_to_identifier-fault_example : filename_to_identifier path 4 (identifier 3) ≡ fault
filename_to_identifier-fault_example =
    filename_to_identifier-fault path 11 path-IsString 7 4 (identifier 3) path-IsStem (omega arith)

-- "ADD" in a buffer of 64 characters
abbrev add_token : Array
add_token = record { size = 64; at = (literal "ADD").at }

add-filled : filled (literal "ADD") ≡ true
unfolding filled literal
add-filled = refl

add-IsString : IsString (literal "ADD") 3
unfolding literal
add-IsString = filled-IsString (literal "ADD") add-filled

add_token-SameString : SameString add_token (literal (mnemonic (arithmetic Arithmetic.add))) 3
unfolding literal mnemonic
add_token-SameString = record {
  left = record { room = omega arith; terminator = refl; characters = add-IsString.characters };
  right = add-IsString;
  characters = λ k h. refl;
}

parse_opcode-mnemonic_example : parse_opcode add_token ≡ ok (pos (code (arithmetic Arithmetic.add)))
parse_opcode-mnemonic_example =
    parse_opcode-mnemonic (arithmetic Arithmetic.add) add_token 3 add_token-SameString
