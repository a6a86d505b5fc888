-- ===== src/Asm/Symbols.antt =====
-- src/asm/c32_symbols.c, on the state of include/c32_asm.h. The tests for null pointers have no
-- counterpart: the arguments are a state and an array.
pub mod Lookup
pub mod Total
use crisp.Base.{
  ℕ, zero, suc, ◌+◌, ◌*◌, ◌==◌, ltb, leb, ◌||◌, Bool, true, false, if◌then◌else◌, Outcome, ok,
  fault, ◌>>=◌,
}
use crisp.Base.Int.{ℤ, pos, negsuc}
use crisp.Array.{Array, store}
use crisp.CString.{strlen, strcmp, strcpy, memset}

abbrev pub max_symbols : ℕ
max_symbols = 1024

abbrev pub max_label_len : ℕ
max_label_len = 64

abbrev pub max_output_size : ℕ
max_output_size = 65536

-- `c32_symbol_t`
pub record Symbol : Type 0 where
  pub name : Array
  pub address : ℕ
  pub defined : Bool

-- `c32_asm_state_t`. `symbols` holds `max_symbols` entries.
pub record AsmState : Type 0 where
  pub symbols : ℕ → Symbol
  pub num_symbols : ℕ
  pub current_address : ℕ
  pub output : Array
  pub output_size : ℕ
  pub pass : ℕ
  pub errors : ℕ

-- `state->symbols[i]`, and an assignment to it
unfoldable pub get_symbol : (ℕ → Symbol) → ℕ → Outcome Symbol
get_symbol symbols i = if ltb i max_symbols then ok (symbols i) else fault

abbrev pub replace : (ℕ → Symbol) → ℕ → Symbol → ℕ → Symbol
replace symbols i entry j = if j == i then entry else symbols j

unfoldable pub set_symbol : (ℕ → Symbol) → ℕ → Symbol → Outcome (ℕ → Symbol)
set_symbol symbols i entry = if ltb i max_symbols then ok (replace symbols i entry) else fault

-- `for (i = 0; i < n; i++)` over the table
unfoldable pub clear_symbols : ℕ → (ℕ → Symbol) → Outcome (ℕ → Symbol)
clear_symbols zero symbols = ok symbols
clear_symbols (suc n) symbols = do
  symbols ← clear_symbols n symbols
  entry ← get_symbol symbols n
  name ← store entry.name 0 0
  set_symbol symbols n (record { name = name; address = 0; defined = false })

unfoldable pub asm_init : AsmState → Outcome AsmState
asm_init state = do
  symbols ← clear_symbols max_symbols state.symbols
  output ← memset state.output 0 0 max_output_size
  ok (record {
    symbols = symbols;
    num_symbols = 0;
    current_address = 0;
    output = output;
    output_size = 0;
    pass = 1;
    errors = 0;
  })

abbrev pub is_zero : ℤ → Bool
is_zero (pos n) = n == 0
is_zero (negsuc n) = false

-- `for (i = 0; i < state->num_symbols; i++)`
unfoldable pub find_loop : (ℕ → Symbol) → Array → (left i : ℕ) → Outcome ℤ
find_loop symbols name zero i = ok (negsuc 0)
find_loop symbols name (suc left) i = do
  entry ← get_symbol symbols i
  order ← strcmp entry.name name
  let rest = find_loop symbols name left (i + 1)
  if is_zero order then ok (pos i) else rest

unfoldable pub find_symbol : AsmState → Array → Outcome ℤ
find_symbol state name = find_loop state.symbols name state.num_symbols 0

-- What follows a search in `c32_asm_add_symbol`: an entry that exists, and a new one. The error
-- codes are -2 and -3.
unfoldable pub add_found : AsmState → Array → ℕ → ℤ → Outcome (ℤ × AsmState)
add_found state name address (pos idx) = do
  entry ← get_symbol state.symbols idx
  if entry.defined then ok (negsuc 1, state) else (do
    symbols ← set_symbol state.symbols idx (record entry { address = address; defined = true })
    ok (pos idx, record state { symbols = symbols }))
add_found state name address (negsuc _) =
    if leb max_symbols state.num_symbols then ok (negsuc 2, state) else (do
      entry ← get_symbol state.symbols state.num_symbols
      copy ← strcpy entry.name name
      symbols ←
          set_symbol state.symbols state.num_symbols
            (record { name = copy; address = address; defined = true })
      ok (
        pos state.num_symbols,
        record state { symbols = symbols; num_symbols = state.num_symbols + 1 },
      ))

unfoldable pub add_symbol : AsmState → Array → ℕ → Outcome (ℤ × AsmState)
add_symbol state name address = do
  name_len ← strlen name
  if (name_len == 0) || leb max_label_len name_len
      then ok (negsuc 0, state)
      else find_symbol state name >>= add_found state name address
