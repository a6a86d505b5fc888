-- ===== src/Asm/Driver.antt =====
-- src/asm/c32asm.c. Null pointers have no counterpart, and messages and line numbers are left out.
-- The C library's files are parameters: what `fopen` and `fgets` deliver, and what `fwrite`
-- returns.
pub mod Assembles
pub mod Labels
pub mod Output
pub mod Passes
pub mod Program
use crisp.Base.{
  ℕ, ◌+◌, ◌-◌, ◌^◌, ◌==◌, ltb, ◌&&◌, Bool, if◌then◌else◌, List, [], ◌∷◌, Option, none, some,
  Outcome, ok, ◌>>=◌, u32,
}
use crisp.Array.{Array, load, store}
use crisp.CString.{strlen}
use crisp.Asm.Symbols.{AsmState, asm_init}
use crisp.Asm.Line.{Verdict, accepted, rejected, accept, reject, assemble_line}

-- The input is opened twice: no file, or the contents of `line` after each `fgets`. The output is
-- created or not; `written` is the number of bytes that `fwrite` wrote of the ones it was given.
pub record Files : Type 0 where
  pub first : Option (List Array)
  pub second : Option (List Array)
  pub created : Bool
  pub written : Array → ℕ → ℕ

-- `line[len-back] == c`, and then `line[len-back] = '\0'`
unfoldable pub strip_character : Array → (len back c : ℕ) → Outcome Array
strip_character line len back c = do
  last ← load line (len - back)
  if last == c then store line (len - back) 0 else ok line

unfoldable pub strip_newline : Array → Outcome Array
strip_newline line = do
  len ← strlen line
  line ← if ltb 0 len then strip_character line len 1 b'\n' else ok line
  if ltb 1 len then strip_character line len 2 b'\r' else ok line

-- `state->errors++` for a line that is refused
unfoldable pub count_error : Verdict × AsmState → AsmState
count_error (accepted, state) = state
count_error (rejected, state) = record state { errors = u32 (state.errors + 1) }

-- The `while` loop of a pass.
unfoldable pub pass_loop : AsmState → List Array → Outcome AsmState
pass_loop state [] = ok state
pass_loop state (line ∷ lines) = do
  line ← strip_newline line
  r ← assemble_line state line
  pass_loop (count_error r) lines

abbrev pub start_pass : ℕ → AsmState → AsmState
start_pass pass state = record state { pass = pass; current_address = 0; output_size = 0 }

-- `state->errors > 0`, of an `int`
abbrev pub has_errors : AsmState → Bool
has_errors state = ltb 0 state.errors && ltb state.errors (2 ^ 31)

-- The output file.
unfoldable pub write_output : Files → AsmState → Outcome (Verdict × AsmState)
write_output files state =
    if files.created && (files.written state.output state.output_size == state.output_size)
    then accept state
    else reject state

-- A pass over the opened input, and what follows it if there are no errors.
unfoldable pub run_pass :
    ℕ
    → AsmState
    → Option (List Array)
    → (AsmState → Outcome (Verdict × AsmState))
    → Outcome (Verdict × AsmState)
run_pass pass state none next = reject (start_pass pass state)
run_pass pass state (some lines) next = do
  state ← pass_loop (start_pass pass state) lines
  let after = next state
  if has_errors state then reject state else after

unfoldable pub assemble_file : AsmState → Files → Outcome (Verdict × AsmState)
assemble_file state files =
    run_pass 1 state files.first λ state. run_pass 2 state files.second (write_output files)

abbrev pub exit_code : Verdict → ℕ
exit_code accepted = 0
exit_code rejected = 1

-- `main`, on the two names it needs: the exit code is 0 or 1.
unfoldable pub assembler : AsmState → Files → Outcome (ℕ × AsmState)
assembler state files = do
  state ← asm_init state
  r ← assemble_file state files
  ok (exit_code r.0, r.1)
