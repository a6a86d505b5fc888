-- ===== src/Tests/Texts.antt =====
-- A line of assembly and the words in it.
use crisp.Base.{
  Returns, ℕ, ◌+◌, ◌-◌, ◌^◌, ◌<◌, ◌≡◌, ◌==◌, ltb, leb, not, ◌&&◌, ◌||◌, Bool, true, refl, arith, [],
  ◌∷◌, ok, inl,
}
use crisp.Base.Table.{all_below, all_below_sound}
use crisp.Array.{Array, update, load, store}
use crisp.CString.{strlen, strlen_loop}
use crisp.CString.Literal.{literal, filled, filled-IsString}
use crisp.CString.Search.{IsString}
use crisp.CString.Same.{SameString}
use crisp.Vm.Instruction.{Instruction}
use crisp.Vm.Opcode.{arithmetic, Arithmetic, code}
use crisp.Vm.Step.{decode}
use crisp.Asm.Symbols.{AsmState}
use crisp.Asm.Mnemonics.Names.{mnemonic}
use crisp.Asm.Registers.Texts.{
  names_of_registers, Register, named, numbered, parse_register-Register,
}
use crisp.Base.Int.{pos}
use crisp.Asm.Registers.{parse_register}
use crisp.Asm.Tokens.{blank_tokens, tokenize}
use crisp.Asm.Tokens.Spells.{Holds}
use crisp.Asm.Tokens.Words.{tokenize-Spells}
use crisp.Asm.Immediate.{parse_immediate}
use crisp.Asm.Immediate.Texts.{parse_immediate-Number}
use crisp.Asm.Immediate.Decimal.{decimal, IsDecimal}
use crisp.Asm.Immediate.Texts.{Number, minus, decimal_digits}
use crisp.Asm.Tokens.{is_blank, is_delimiter}
use crisp.Asm.Tokens.Spells.{Blanks, IsWord, Spells, spells_end, spells_word}
use crisp.Asm.Operands.Formats.{format}
use crisp.Asm.Operands.Texts.{two_registers_immediate_text}
use crisp.Asm.Line.Texts.{Writes, writes, is_label, Starts, labelled}
use crisp.Asm.Driver.{strip_newline, strip_character, pass_loop}
use crisp.Asm.Driver.Passes.{no_line, count}
use crisp.Asm.Driver.Assembles.{IsInstruction, decode-pass_loop-IsInstruction}
use crisp.Tests.Numbers.{minus_42, minus_42-IsDecimal, minus_42-sign}
use crisp.Tests.Programs.{second_pass, fresh-IsState}

unfoldable are_blank : Array → (p q : ℕ) → Bool
unfolding all_below
are_blank line p q = leb p q && all_below q (λ k. ltb k p || is_blank (line.at k))

are_blank-Blanks : (line : Array) (p q : ℕ) → are_blank line p q ≡ true → Blanks line p q
unfolding are_blank
are_blank-Blanks line p q e = record {
  from = ground arith;
  blanks = λ k a b.
      ground (arith, all_below_sound q (λ k. ltb k p || is_blank (line.at k)) (ground arith) k b);
}

unfoldable is_word : Array → ℕ → Array → Bool
unfolding all_below filled
is_word line q text =
    filled text
    && ltb 1 text.size
    && leb text.size 64
    && all_below (text.size - 1)
        (λ k. line.at (q + k) == text.at k && not (is_delimiter (line.at (q + k))))
    && is_delimiter (line.at (q + (text.size - 1)))

is_word-IsWord :
    (line : Array) (q : ℕ) (text : Array)
    → is_word line q text ≡ true
    → IsWord line q text (text.size - 1)
unfolding is_word
is_word-IsWord line q text e = record {
  string = filled-IsString text (ground arith);
  some = ground arith;
  short = ground arith;
  written = λ k b. ground (arith, letters k b);
  solid = λ k b. ground (arith, letters k b);
  ended = ground arith;
}
  where
    letters :
        (k : ℕ)
        → k < text.size - 1
        → (line.at (q + k) == text.at k && not (is_delimiter (line.at (q + k)))) ≡ true
    letters k b =
        all_below_sound (text.size - 1)
          (λ k. line.at (q + k) == text.at k && not (is_delimiter (line.at (q + k)))) (ground arith)
          k b

-- "go: ADDI R1, zero, -42 ; x", with its end of line and without
abbrev pub typed : Array
typed = literal "go: ADDI R1, zero, -42 ; x\n"

abbrev line : Array
line = record typed { at = update typed.at 26 0 }

typed-strip : strip_newline typed ≡ ok line
unfolding strip_newline strip_character strlen strlen_loop load store literal
typed-strip = refl

line-filled : all_below 26 (λ k. not (line.at k == 0)) ≡ true
unfolding all_below literal
line-filled = refl

line-IsString : IsString line 26
unfolding literal
line-IsString = record {
  room = omega arith;
  terminator = refl;
  characters =
      λ k h. ground (arith, all_below_sound 26 (λ k. not (line.at k == 0)) line-filled k h);
}

spaces_at : (p q : ℕ) → are_blank line p q ≡ true → Blanks line p q
spaces_at p q e = are_blank-Blanks line p q e

word_at : (q : ℕ) (text : Array) → is_word line q text ≡ true → IsWord line q text (text.size - 1)
word_at q text e = is_word-IsWord line q text e

abbrev r1 : Array
r1 = literal "R1"

abbrev zero_name : Array
zero_name = literal "zero"

line-Spells : Spells line 3 (literal "ADDI" ∷ r1 ∷ zero_name ∷ minus_42 ∷ [])
unfolding is_word are_blank literal all_below filled
line-Spells = spells_word {q = 4} (spaces_at 3 4 refl) (word_at 4 (literal "ADDI") refl) (
    spells_word {q = 9} (spaces_at 8 9 refl) (word_at 9 r1 refl) (
      spells_word {q = 13} (spaces_at 12 13 refl) (word_at 13 zero_name refl) (
        spells_word {q = 19} (spaces_at 18 19 refl) (word_at 19 minus_42 refl)
          (spells_end {q = 23} (spaces_at 22 23 refl) refl))))

line-Starts : Starts line 3
unfolding are_blank literal all_below
line-Starts =
    labelled {q = 0} {e = 2}
      (record {
        blanks = spaces_at 0 0 refl;
        some = omega arith;
        solid = refl;
        characters =
            λ k a b. ground (arith, all_below_sound 2 (λ k. is_label (line.at k)) refl k b);
        ended = refl;
      })
      refl (omega arith)

SameString-refl : (text : Array) → filled text ≡ true → SameString text text (text.size - 1)
SameString-refl text e = record {
  left = filled-IsString text e;
  right = filled-IsString text e;
  characters = λ k h. refl;
}

r1-IsDecimal : IsDecimal r1 2 1
unfolding literal filled all_below
r1-IsDecimal = record {
  text = filled-IsString r1 refl;
  some = omega arith;
  digits = λ k a b. let here : k ≡ 1 = omega arith in rw here refl;
}

abbrev pub addi_42 : Instruction
addi_42 = record { opcode = 5; rs = 0; rt = 1; rd = 0; immediate = 0xFFFFFFD6 }

line-Writes : Writes second_pass (literal "ADDI" ∷ r1 ∷ zero_name ∷ minus_42 ∷ []) addi_42
unfolding literal filled all_below mnemonic code format names_of_registers decimal
line-Writes = writes (arithmetic Arithmetic.addi) refl (SameString-refl (literal "ADDI") refl) (
    two_registers_immediate_text (numbered r1-IsDecimal (inl refl) (omega arith))
      (named refl (SameString-refl zero_name refl))
      (minus minus_42-sign (decimal_digits minus_42-IsDecimal)))

pub no_more : second_pass.errors + count [] < 2 ^ 31
unfolding count
no_more = omega arith

pub typed-IsInstruction : IsInstruction second_pass typed addi_42
typed-IsInstruction = record {
  line = line;
  n = 26;
  start = 3;
  words = literal "ADDI" ∷ r1 ∷ zero_name ∷ minus_42 ∷ [];
  strip = typed-strip;
  string = line-IsString;
  starts = line-Starts;
  spells = line-Spells;
  few = omega arith;
  writes_inst = line-Writes;
}

decode-pass_loop-IsInstruction_example :
    (u : AsmState) × (pass_loop second_pass (typed ∷ []) ≡ ok u) × (decode u.output 0 ≡ ok addi_42)
decode-pass_loop-IsInstruction_example =
    decode-pass_loop-IsInstruction second_pass typed addi_42 [] (fresh-IsState 2) refl (omega arith)
      typed-IsInstruction no_line no_more

tokenize-Spells_example :
    Returns
      (λ r. (r.0 ≡ 4) × Holds r.1 0 (literal "ADDI" ∷ r1 ∷ zero_name ∷ minus_42 ∷ []))
      (tokenize line 3 blank_tokens 8)
tokenize-Spells_example =
    tokenize-Spells line 26 line-IsString 3 line-Spells (omega arith) (omega arith)

-- "R1" and "-42" in buffers of 64 characters
r1_written : Register r1 1
unfolding literal decimal
r1_written = numbered r1-IsDecimal (inl refl) (omega arith)

abbrev r1_token : Array
r1_token = record { size = 64; at = r1.at }

r1_token-SameString : SameString r1_token r1 2
unfolding literal
r1_token-SameString = record {
  left = record {
    room = omega arith;
    terminator = refl;
    characters = r1-IsDecimal.text.characters;
  };
  right = r1-IsDecimal.text;
  characters = λ k h. refl;
}

parse_register-Register_example : parse_register r1_token ≡ ok (pos 1)
parse_register-Register_example = parse_register-Register r1_token r1_written r1_token-SameString

minus_42_written : Number minus_42 0xFFFFFFD6
unfolding literal decimal
minus_42_written = minus minus_42-sign (decimal_digits minus_42-IsDecimal)

minus_42-SameString : SameString minus_42 minus_42 3
minus_42-SameString = record {
  left = minus_42-IsDecimal.text;
  right = minus_42-IsDecimal.text;
  characters = λ k h. refl;
}

parse_immediate-Number_example : parse_immediate minus_42 ≡ ok 0xFFFFFFD6
parse_immediate-Number_example =
    parse_immediate-Number minus_42 minus_42_written minus_42-SameString
