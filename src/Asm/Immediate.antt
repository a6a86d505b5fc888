-- ===== src/Asm/Immediate.antt =====
-- `parse_immediate` of src/asm/c32_parser.c. A `const char *` is an array and an index into it.
-- `value` is an `int32_t`, here its bit pattern; a number that is too long wraps around.
pub mod Decimal
pub mod Hexadecimal
pub mod Texts
pub mod Total
use crisp.Base.{
  ℕ, zero, suc, ◌+◌, ◌-◌, ◌*◌, ◌^◌, bit_or, ◌==◌, leb, ◌&&◌, ◌||◌, Bool, true, false, if◌then◌else◌,
  Option, some, none, Outcome, ok, fault, ◌>>=◌, u32, sub32,
}
use crisp.Array.{Array, load}

abbrev pub is_digit : ℕ → Bool
is_digit c = leb b'0' c && leb c b'9'

-- The value of a hexadecimal digit.
abbrev pub hex_digit : ℕ → Option ℕ
hex_digit c =
    if is_digit c
    then some (c - b'0')
    else if leb b'a' c && leb c b'f'
    then some (c - b'a' + 10)
    else if leb b'A' c && leb c b'F'
    then some (c - b'A' + 10)
    else none

-- A round of `while (*p)`, which the first other character leaves.
unfoldable pub hex_next : (ℕ → Outcome ℕ) → Option ℕ → ℕ → Outcome ℕ
hex_next next (some d) value = next (bit_or (u32 (value * 2 ^ 4)) d)
hex_next next none value = ok value

unfoldable pub hex_loop : Array → (left p value : ℕ) → Outcome ℕ
hex_loop str zero p value = fault
hex_loop str (suc left) p value = do
  c ← load str p
  hex_next (hex_loop str left (p + 1)) (hex_digit c) value

unfoldable pub decimal_loop : Array → (left p value : ℕ) → Outcome ℕ
decimal_loop str zero p value = fault
decimal_loop str (suc left) p value = do
  c ← load str p
  let rest = decimal_loop str left (p + 1) (u32 (value * 10 + (c - b'0')))
  if is_digit c then rest else ok value

-- `p[0] == '0' && (p[1] == 'x' || p[1] == 'X')`, which reads `p[1]` only behind a zero
unfoldable pub has_prefix : Array → ℕ → Outcome Bool
has_prefix str p = do
  c ← load str p
  let second = load str (p + 1) >>= λ d. ok (d == b'x' || d == b'X')
  if c == b'0' then second else ok false

-- The digits from `p` on. One round for each byte, and one more, is enough.
unfoldable pub parse_digits : Array → ℕ → Outcome ℕ
parse_digits str p = do
  hex ← has_prefix str p
  if hex then hex_loop str (str.size + 1) (p + 2) 0 else decimal_loop str (str.size + 1) p 0

-- The `uint32_t` that `*result` is cast to. The function always returns 0.
unfoldable pub parse_immediate : Array → Outcome ℕ
parse_immediate str = do
  c ← load str 0
  let negative = parse_digits str 1 >>= λ value. ok (sub32 0 value)
  let signed = parse_digits str 1
  let plain = parse_digits str 0
  if c == b'-' then negative else if c == b'+' then signed else plain
