-- ===== src/Tests/Lines.antt =====
-- Lines of assembly.
use crisp.Base.{ℕ, ◌≡◌, refl, Outcome, ok, ◌>>=◌}
use crisp.Array.{load, store}
use crisp.CString.Literal.{literal}
use crisp.CString.{
  memcpy, memcpy_loop, strlen, strlen_loop, strcmp, strcmp_loop, strcpy, strcpy_loop,
}
use crisp.Asm.Symbols.{
  AsmState, add_symbol, add_found, find_symbol, find_loop, get_symbol, set_symbol,
}
use crisp.Asm.Registers.{
  register_names, number_loop, in_range, parse_number, parse_name, parse_register,
}
use crisp.Asm.Immediate.{
  hex_next, hex_loop, decimal_loop, has_prefix, parse_digits, parse_immediate,
}
use crisp.Asm.Mnemonics.{mnemonics, find_mnemonic, parse_opcode}
use crisp.Asm.Tokens.{skip_loop, skip_whitespace, token_loop, read_token, tokenize_loop, tokenize}
use crisp.Asm.Operands.{form_of, min_tokens, register_operand, operands}
use crisp.Asm.Line.{
  Verdict, accepted, label_loop, define_label, emit, assemble_opcode, assemble_instruction,
  assemble_from, assemble_line,
}
use crisp.Tests.Assembler.{fresh}

hex_ff : parse_immediate (literal "-0xfF") ≡ ok 0xFFFFFF01
unfolding literal parse_immediate parse_digits has_prefix load hex_loop hex_next
hex_ff = refl

token_count :
    (tokenize (literal "ADDI R1,\tR0, 42 ; x") 0 (λ i. record { size = 64; at = λ k. 0 }) 8 >>= λ t.
    ok t.0)
    ≡ ok 4
unfolding literal tokenize tokenize_loop load store skip_whitespace skip_loop read_token token_loop
token_count = refl

-- The verdict, the number of symbols and the current address.
abbrev summary : Verdict × AsmState → Outcome (Verdict × ℕ × ℕ)
summary (v, state) = ok (v, state.num_symbols, state.current_address)

label_line : (assemble_line fresh (literal "go: ADDI R1, R0, 42") >>= summary) ≡ ok (accepted, 1, 8)
unfolding literal assemble_line assemble_from label_loop define_label emit assemble_opcode
    assemble_instruction tokenize tokenize_loop load store skip_whitespace skip_loop read_token
    token_loop memcpy memcpy_loop strlen strlen_loop strcmp strcmp_loop strcpy strcpy_loop
    add_symbol add_found find_symbol find_loop get_symbol set_symbol parse_opcode find_mnemonic
    mnemonics form_of min_tokens operands register_operand parse_register parse_name register_names
    parse_number number_loop in_range parse_immediate parse_digits has_prefix decimal_loop
label_line = refl
