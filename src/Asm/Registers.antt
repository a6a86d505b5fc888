-- ===== src/Asm/Registers.antt =====
-- `c32_parse_register` of src/asm/c32_encode.c. Its null test has no counterpart; -1 is `negsuc 0`.
pub mod Texts
pub mod Total
use crisp.Base.{
  ℕ, zero, suc, ◌+◌, ◌-◌, ◌*◌, ◌==◌, ltb, leb, ◌||◌, ◌&&◌, Bool, true, false, if◌then◌else◌, List,
  [], ◌∷◌, Outcome, ok, ◌>>=◌, Option, some, none, u32,
}
use crisp.Base.Int.{ℤ, pos, negsuc}
use crisp.Array.{Array, load}
use crisp.CString.Literal.{literal}
use crisp.CString.{strlen, strcmp}
use crisp.Asm.Symbols.{is_zero}

-- The special names, in the order of their registers.
unfoldable pub register_names : List Array
unfolding literal
register_names =
    literal "zero"
    ∷ literal "at"
    ∷ literal "v0"
    ∷ literal "v1"
    ∷ literal "a0"
    ∷ literal "a1"
    ∷ literal "a2"
    ∷ literal "a3"
    ∷ literal "t0"
    ∷ literal "t1"
    ∷ literal "t2"
    ∷ literal "t3"
    ∷ literal "t4"
    ∷ literal "t5"
    ∷ literal "t6"
    ∷ literal "t7"
    ∷ literal "s0"
    ∷ literal "s1"
    ∷ literal "s2"
    ∷ literal "s3"
    ∷ literal "s4"
    ∷ literal "s5"
    ∷ literal "s6"
    ∷ literal "s7"
    ∷ literal "t8"
    ∷ literal "t9"
    ∷ literal "k0"
    ∷ literal "k1"
    ∷ literal "gp"
    ∷ literal "sp"
    ∷ literal "fp"
    ∷ literal "ra"
    ∷ []

-- The loop over the digits. `reg` is an `int`, here its bit pattern; a number that is too long
-- wraps around. `none` is the `return -1` in the middle of the loop.
unfoldable pub number_loop : Array → (left i reg : ℕ) → Outcome (Option ℕ)
number_loop str zero i reg = ok (some reg)
number_loop str (suc left) i reg = do
  c ← load str i
  let rest = number_loop str left (i + 1) (u32 (reg * 10 + (c - 48)))
  if leb 48 c && leb c 57 then rest else ok none

-- `if (reg >= 0 && reg <= 31) return reg;` and the `return -1` at the end
unfoldable pub in_range : Option ℕ → ℤ
in_range (some reg) = if leb reg 31 then pos reg else negsuc 0
in_range none = negsuc 0

-- `R##` and `r##`
unfoldable pub parse_number : Array → ℕ → Outcome ℤ
parse_number str len = do
  c ← load str 0
  let number = number_loop str (len - 1) 1 0 >>= λ reg. ok (in_range reg)
  if ((c == 82) || (c == 114)) && ltb 1 len then number else ok (negsuc 0)

-- `if (c32_strcmp(str, name) == 0) return reg;` for the names from register `reg` on
unfoldable pub parse_name : Array → ℕ → List Array → ℕ → Outcome ℤ
parse_name str len [] reg = parse_number str len
parse_name str len (name ∷ names) reg = do
  order ← strcmp str name
  let rest = parse_name str len names (reg + 1)
  if is_zero order then ok (pos reg) else rest

unfoldable pub parse_register : Array → Outcome ℤ
parse_register str = do
  len ← strlen str
  if len == 0 then ok (negsuc 0) else parse_name str len register_names 0
