-- ===== src/Asm/Tokens.antt =====
-- `skip_whitespace` and `tokenize` of src/asm/c32_parser.c. The cursor `p` is an index into the
-- line. Every round of a loop moves it on, so that one round for each byte, and one more, is
-- enough.
pub mod Spells
pub mod Total
pub mod Words
use crisp.Base.{
  ℕ, zero, suc, ◌+◌, ◌-◌, ◌==◌, ltb, not, ◌&&◌, ◌||◌, Bool, if◌then◌else◌, Outcome, ok, fault,
  ◌>>=◌,
}
use crisp.Array.{Array, load, store}
use crisp.Asm.Symbols.{max_label_len}

abbrev pub is_blank : ℕ → Bool
is_blank c = c == b' ' || c == b'\t'

-- The end of a line, or of what stands before its comment.
abbrev pub is_end : ℕ → Bool
is_end c = c == 0 || c == b';' || c == b'#'

abbrev pub is_delimiter : ℕ → Bool
is_delimiter c = is_end c || is_blank c || c == b','

unfoldable pub skip_loop : Array → (left p : ℕ) → Outcome ℕ
skip_loop line zero p = fault
skip_loop line (suc left) p = do
  c ← load line p
  let rest = skip_loop line left (p + 1)
  if is_blank c then rest else ok p

unfoldable pub skip_whitespace : Array → ℕ → Outcome ℕ
skip_whitespace line p = skip_loop line (line.size + 1) p

-- `tokens`, `char[8][64]`. A token is written up to its terminator before it is read.
abbrev pub Tokens : Type 0
Tokens = ℕ → Array

abbrev pub blank_tokens : Tokens
blank_tokens i = record { size = max_label_len; at = λ k. 0 }

abbrev pub set_token : Tokens → ℕ → Array → Tokens
set_token tokens i t j = if j == i then t else tokens j

-- The inner loop: one token, whose characters from the 64th on are dropped.
unfoldable pub token_loop : Array → (left p token_pos : ℕ) → Array → Outcome (ℕ × ℕ × Array)
token_loop line zero p token_pos token = fault
token_loop line (suc left) p token_pos token = do
  c ← load line p
  let kept = store token token_pos c >>= token_loop line left (p + 1) (token_pos + 1)
  let dropped = token_loop line left (p + 1) token_pos token
  if is_delimiter c
      then ok (p, token_pos, token)
      else if ltb token_pos (max_label_len - 1)
      then kept
      else dropped

-- One round of the outer loop behind the whitespace: a token, its terminator, and a comma.
unfoldable pub read_token : Array → (p token_count : ℕ) → Tokens → Outcome (ℕ × ℕ × Tokens)
read_token line p token_count tokens = do
  (p, token_pos, token) ← token_loop line (line.size + 1) p 0 (tokens token_count)
  token ← store token token_pos 0
  c ← load line p
  ok (
    if c == b',' then p + 1 else p,
    if ltb 0 token_pos then token_count + 1 else token_count,
    set_token tokens token_count token,
  )

unfoldable pub tokenize_loop :
    Array → (max_tokens left p token_count : ℕ) → Tokens → Outcome (ℕ × Tokens)
tokenize_loop line max_tokens zero p token_count tokens = fault
tokenize_loop line max_tokens (suc left) p token_count tokens = do
  c ← load line p
  let round = skip_whitespace line p >>= λ p. load line p >>= λ c.
      let rest = read_token line p token_count tokens >>= λ (p, token_count, tokens).
      tokenize_loop line max_tokens left p token_count tokens in
      if is_end c then ok (token_count, tokens) else rest
  if not (c == 0) && ltb token_count max_tokens then round else ok (token_count, tokens)

-- `tokenize(line + p, tokens, max_tokens)`
unfoldable pub tokenize : Array → ℕ → Tokens → ℕ → Outcome (ℕ × Tokens)
tokenize line p tokens max_tokens = tokenize_loop line max_tokens (line.size + 1) p 0 tokens
