-- ===== src/CString/Format.antt =====
-- The conversions of `printf` and `fprintf` that the programs of src/vm/main.c and
-- src/tools/bin2h.c use. What is printed is a list of bytes.
use crisp.Base.{
  ℕ, zero, suc, ◌+◌, ◌-◌, ◌/◌, ◌%◌, ◌^◌, ◌==◌, ltb, Bool, if◌then◌else◌, List, [], ◌∷◌, ◌++◌,
  Outcome, ok, fault, ◌>>=◌,
}
use crisp.Array.{Array, load}

abbrev pub Text : Type 0
Text = List ℕ

-- A digit of `%x`, and of `%lu`.
abbrev pub digit_char : ℕ → ℕ
digit_char d = if ltb d 10 then b'0' + d else b'a' + (d - 10)

-- `%02x` of an `unsigned char`
abbrev pub hex_byte : ℕ → Text
hex_byte b = digit_char (b / 16) ∷ digit_char (b % 16) ∷ []

-- The digits of a number, before the text that follows them. An `unsigned long` has at most 64.
unfoldable pub digits_loop : (base left n : ℕ) → Text → Text
digits_loop base zero n rest = rest
digits_loop base (suc left) n rest =
    let more = digits_loop base left (n / base) (digit_char (n % base) ∷ rest) in
    if n / base == 0 then digit_char (n % base) ∷ rest else more

-- `%04lx`: with zeros before it up to four digits
abbrev pub padding : Bool → Text
padding b = if b then b'0' ∷ [] else []

unfoldable pub hex_long : ℕ → Text
hex_long n =
    padding (ltb n (16 ^ 3))
    ++ (padding (ltb n (16 ^ 2)) ++ (padding (ltb n 16) ++ digits_loop 16 64 n []))

-- `%lu`
unfoldable pub decimal_long : ℕ → Text
decimal_long n = digits_loop 10 64 n []

-- `%s` of the string at `p`
unfoldable pub string_loop : Array → (left p : ℕ) → Outcome Text
string_loop s zero p = fault
string_loop s (suc left) p = do
  c ← load s p
  let rest = string_loop s left (p + 1) >>= λ text. ok (c ∷ text)
  if c == 0 then ok [] else rest

unfoldable pub string_from : Array → ℕ → Outcome Text
string_from s p = string_loop s (s.size + 1) p

-- `%08lx`, and `%08x` of an `unsigned int`: with zeros before it up to eight digits
unfoldable pub zeros : ℕ → ℕ → Text
zeros zero n = []
zeros (suc k) n = padding (ltb n (16 ^ suc k)) ++ zeros k n

unfoldable pub hex_word : ℕ → Text
hex_word n = zeros 7 n ++ digits_loop 16 64 n []

-- `%-2d` of a number below 100: with a space behind it up to two characters
unfoldable pub left_decimal : ℕ → Text
left_decimal n = decimal_long n ++ (if ltb n 10 then b' ' ∷ [] else [])
