-- ===== src/Asm/Immediate/Hexadecimal.antt =====
-- `parse_immediate` of src/asm/c32_parser.c on hexadecimal numbers.
use crisp.Base.{
  ℕ, zero, suc, ◌+◌, ◌-◌, ◌*◌, ◌%◌, ◌^◌, ◌≤◌, ◌<◌, ◌≡◌, inl, inr, ◌==◌, ltb, leb, ◌||◌, ◌&&◌, Bool,
  true, if◌then◌else◌, Bool-cases, refl, ap, sym, arith, some, none, ok, u32, bit_or,
}
use crisp.Base.Bits.{or_fields}
use crisp.Array.{Array, load-ok}
use crisp.CString.Search.{IsString}
use crisp.Asm.Immediate.{hex_digit, hex_next, hex_loop, has_prefix, parse_digits}

-- The sixteen digits, of which the last six are written in small letters or in capitals.
abbrev pub is_hexadecimal : ℕ → Bool
is_hexadecimal c = leb b'0' c && leb c b'9' || leb b'A' c && leb c b'F' || leb b'a' c && leb c b'f'

-- What a digit is worth.
abbrev pub digit_value : ℕ → ℕ
digit_value c =
    if ltb c b'A' then c - b'0' else if ltb c b'a' then 10 + (c - b'A') else 10 + (c - b'a')

-- The number that the `k` hexadecimal digits from `p` on write.
unfoldable pub hexadecimal : (ℕ → ℕ) → (p k : ℕ) → ℕ
hexadecimal f p zero = 0
hexadecimal f p (suc k) = hexadecimal f p k * 16 + digit_value (f (p + k))

-- A string of `0x` at `p` and hexadecimal digits.
pub record IsHexadecimal (str : Array) (n p : ℕ) : Type 0 where
  pub text : IsString str n
  pub prefixed : p + 2 ≤ n
  pub first : str.at p ≡ b'0'
  pub second : (str.at (p + 1) == b'x' || str.at (p + 1) == b'X') ≡ true
  pub digits : (k : ℕ) → p + 2 ≤ k → k < n → is_hexadecimal (str.at k) ≡ true

hex_digit-digit_value : (c : ℕ) → is_hexadecimal c ≡ true → hex_digit c ≡ some (digit_value c)
hex_digit-digit_value c e = ground arith

digit_value-lt : (c : ℕ) → is_hexadecimal c ≡ true → digit_value c < 16
digit_value-lt c e = ground arith

-- A digit more.
or_digit : (v d : ℕ) → d < 16 → bit_or (u32 (u32 v * 2 ^ 4)) d ≡ u32 (v * 16 + d)
or_digit v d h =
    let wrapped : u32 (u32 v * 2 ^ 4) ≡ v % 2 ^ 28 * 2 ^ 4 = omega arith in
    rw (wrapped, or_fields 4 (v % 2 ^ 28) d (omega arith)) (omega (arith, h))

module _ (str : Array) (n p : ℕ) (h : IsHexadecimal str n p) where
  hex_loop-hexadecimal :
      (left k q : ℕ)
      → q ≡ p + 2 + k
      → q ≤ n
      → n < q + left
      → hex_loop str left q (u32 (hexadecimal str.at (p + 2) k))
        ≡ ok (u32 (hexadecimal str.at (p + 2) (n - (p + 2))))
  unfolding hex_loop hexadecimal hex_next
  hex_loop-hexadecimal zero k q e below enough = absurd (omega arith)
  hex_loop-hexadecimal (suc left) k q e below enough = elim (Bool-cases (q == n)) [
    | inl end ↦
        let here : str.at q ≡ 0 = ground (arith, h.text.terminator) in
        let stop : hex_digit (str.at q) ≡ none = ground arith in
        let all : k ≡ n - (p + 2) = ground arith in
        rw (load-ok str q (omega (arith, h.text.room)), stop)
          (ap (λ k. ok (u32 (hexadecimal str.at (p + 2) k))) all)
    | inr more ↦
        let digit : is_hexadecimal (str.at q) ≡ true = h.digits q (omega arith) (ground arith) in
        let value : hexadecimal str.at (p + 2) (suc k)
            ≡ hexadecimal str.at (p + 2) k * 16 + digit_value (str.at q) =
          rw (sym e) refl in
        rw
          (
            load-ok str q (omega (arith, h.text.room)),
            hex_digit-digit_value (str.at q) digit,
            or_digit (hexadecimal str.at (p + 2) k) (digit_value (str.at q))
                (digit_value-lt (str.at q) digit),
            sym value,
          )
          (hex_loop-hexadecimal left (suc k) (q + 1) (omega arith) (ground arith) (omega arith))
  ]

  pub parse_digits-hexadecimal :
      parse_digits str p ≡ ok (u32 (hexadecimal str.at (p + 2) (n - (p + 2))))
  unfolding parse_digits has_prefix hexadecimal
  parse_digits-hexadecimal =
      rw
        (
          load-ok str p (omega (arith, h.prefixed, h.text.room)),
          load-ok str (p + 1) (omega (arith, h.prefixed, h.text.room)),
          h.first,
          h.second,
        )
        (hex_loop-hexadecimal (str.size + 1) 0 (p + 2) (omega arith) h.prefixed
          (omega (arith, h.text.room)))
