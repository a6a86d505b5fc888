-- ===== src/Asm/Line/Advance.antt =====
-- What `c32_asm_assemble_line` makes of a line, by its text alone.
use crisp.Base.{
  ℕ, ◌+◌, ◌-◌, ◌==◌, ltb, leb, ◌&&◌, if◌then◌else◌, Outcome, ok, ◌>>=◌, Option, none, some,
}
use crisp.Base.Int.{ℤ, pos, negsuc}
use crisp.Array.{Array, load}
use crisp.Asm.Symbols.{max_label_len}
use crisp.Asm.Mnemonics.{parse_opcode}
use crisp.Asm.Tokens.{is_end, skip_whitespace, blank_tokens, tokenize}
use crisp.Asm.Operands.{form_of, min_tokens}
use crisp.Asm.Line.{label_loop}

-- The number of bytes of code of a line, 8 or none; a line that is refused has no number.
unfoldable pub size_of_opcode : (token_count : ℕ) → ℤ → Option ℕ
size_of_opcode token_count (negsuc _) = none
size_of_opcode token_count (pos opcode) =
    if ltb token_count (min_tokens (form_of opcode)) then none else some 8

unfoldable pub size_of_instruction : Array → ℕ → Outcome (Option ℕ)
size_of_instruction line p = do
  (token_count, tokens) ← tokenize line p blank_tokens 8
  let instruction = parse_opcode (tokens 0) >>= λ z. ok (size_of_opcode token_count z)
  if token_count == 0 then ok (some 0) else instruction

unfoldable pub size_from : Array → (p q : ℕ) → Outcome (Option ℕ)
size_from line p q = do
  c ← load line q
  let behind_label = skip_whitespace line (q + 1) >>= λ p. load line p >>= λ c.
      let instruction = size_of_instruction line p in if c == 0 then ok (some 0) else instruction
  let instruction = size_of_instruction line p
  if c == b':' && ltb 0 (q - p)
      then (if leb max_label_len (q - p) then ok none else behind_label)
      else instruction

unfoldable pub size_of_line : Array → Outcome (Option ℕ)
size_of_line line = do
  p ← skip_whitespace line 0
  c ← load line p
  let rest = label_loop line (line.size + 1) p >>= size_from line p
  if is_end c then ok (some 0) else rest
