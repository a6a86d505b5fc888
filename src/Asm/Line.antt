-- ===== src/Asm/Line.antt =====
-- `c32_asm_assemble_line` of src/asm/c32_parser.c. Its null test has no counterpart, and
-- `line_num` is not used.
pub mod Advance
pub mod Follows
pub mod Moves
pub mod Texts
use crisp.Base.{
  ℕ, zero, suc, ◌+◌, ◌-◌, ◌==◌, ltb, leb, not, ◌&&◌, ◌||◌, Bool, true, false, if◌then◌else◌,
  Outcome, ok, fault, ◌>>=◌, u8, u32,
}
use crisp.Base.Int.{ℤ, pos, negsuc}
use crisp.Array.{Array, load, store}
use crisp.CString.{memcpy}
use crisp.Vm.Instruction.{Instruction}
use crisp.Asm.Encode.{encode_instruction}
use crisp.Asm.Symbols.{AsmState, add_symbol, max_label_len, max_output_size}
use crisp.Asm.Mnemonics.{parse_opcode}
use crisp.Asm.Tokens.{is_blank, is_end, skip_whitespace, Tokens, blank_tokens, tokenize}
use crisp.Asm.Operands.{Form, form_of, min_tokens, operands}

-- What the function returns: 0 and -1.
pub data Verdict : Type 0 where
  accepted rejected : Verdict

abbrev pub accept : AsmState → Outcome (Verdict × AsmState)
accept state = ok (accepted, state)

abbrev pub reject : AsmState → Outcome (Verdict × AsmState)
reject state = ok (rejected, state)

-- The loop that looks for the end of a label; `p` is `line + len` there.
unfoldable pub label_loop : Array → (left p : ℕ) → Outcome ℕ
label_loop line zero p = fault
label_loop line (suc left) p = do
  c ← load line p
  let rest = label_loop line left (p + 1)
  if not (c == 0) && not (c == b':') && not (is_blank c) then rest else ok p

-- `label[len] = '\0'` after the copy, and the symbol in pass 1, whose result is not looked at.
unfoldable pub define_label : AsmState → Array → (p len : ℕ) → Outcome AsmState
define_label state line p len = do
  label ← memcpy (record { size = max_label_len; at = λ k. 0 }) 0 line p len
  label ← store label len 0
  let added = add_symbol state label state.current_address >>= λ r. ok r.1
  if state.pass == 1 then added else ok state

-- The last part: the code in pass 2, and the address.
unfoldable pub emit : AsmState → Instruction → Outcome (Verdict × AsmState)
emit state inst =
    let encoded = encode_instruction state.output state.output_size inst >>= λ output.
    accept (record state {
      output = output;
      output_size = u32 (state.output_size + 8);
      current_address = u32 (state.current_address + 8);
    }) in
    let full = ltb max_output_size (u32 (state.output_size + 8)) in
    if state.pass == 2
    then (if full then reject state else encoded)
    else accept (record state { current_address = u32 (state.current_address + 8) })

-- The instruction with the opcode, whose operands are still zero.
unfoldable pub assemble_opcode :
    AsmState → (token_count : ℕ) → Tokens → ℤ → Outcome (Verdict × AsmState)
assemble_opcode state token_count tokens (negsuc _) = reject state
assemble_opcode state token_count tokens (pos opcode) =
    let inst : Instruction = record { opcode = u8 opcode; rs = 0; rt = 0; rd = 0; immediate = 0 } in
    let form = form_of opcode in
    if ltb token_count (min_tokens form)
    then reject state
    else operands form state tokens inst >>= emit state

-- The line from `p` on, behind a label.
unfoldable pub assemble_instruction : AsmState → Array → ℕ → Outcome (Verdict × AsmState)
assemble_instruction state line p = do
  (token_count, tokens) ← tokenize line p blank_tokens 8
  let instruction = parse_opcode (tokens 0) >>= assemble_opcode state token_count tokens
  if token_count == 0 then accept state else instruction

-- The line from `p` on, which starts a label, an instruction or both; `q` is where a label ends.
unfoldable pub assemble_from : AsmState → Array → (p q : ℕ) → Outcome (Verdict × AsmState)
assemble_from state line p q = do
  c ← load line q
  let behind_label = define_label state line p (q - p) >>= λ state.
      skip_whitespace line (q + 1) >>= λ p. load line p >>= λ c.
      let instruction = assemble_instruction state line p in
      if c == 0 then accept state else instruction
  let instruction = assemble_instruction state line p
  if c == b':' && ltb 0 (q - p)
      then (if leb max_label_len (q - p) then reject state else behind_label)
      else instruction

unfoldable pub assemble_line : AsmState → Array → Outcome (Verdict × AsmState)
assemble_line state line = do
  p ← skip_whitespace line 0
  c ← load line p
  let rest = label_loop line (line.size + 1) p >>= assemble_from state line p
  if is_end c then accept state else rest
