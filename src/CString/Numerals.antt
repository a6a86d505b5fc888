-- ===== src/CString/Numerals.antt =====
-- Numbers as text, beside the conversions of `printf` in CString/Format.
use native.Mathlib.Nat.{pow-suc}
use crisp.Base.{
  ℕ, zero, suc, ◌+◌, ◌-◌, ◌*◌, ◌/◌, ◌%◌, ◌^◌, ◌≤◌, ◌<◌, ◌≡◌, ◌==◌, ltb, leb, ◌&&◌, ◌||◌, refl, ap,
  ◌∙◌, arith, Bool, true, if◌then◌else◌, [], ◌∷◌, ◌++◌, Bool-cases, inl, inr,
}
use crisp.CString.Format.{Text, digit_char, digits_loop, zeros, hex_word, decimal_long}

-- What a digit is worth, and which characters are digits.
abbrev pub worth : ℕ → ℕ
worth c = if ltb c b'a' then c - b'0' else 10 + (c - b'a')

abbrev pub is_numeral : (base c : ℕ) → Bool
is_numeral base c = (leb b'0' c && leb c b'9' || leb b'a' c && leb c b'f') && ltb (worth c) base

-- The number that digits write, behind those read before.
unfoldable pub reading : (base before : ℕ) → Text → ℕ
reading base before [] = before
reading base before (c ∷ text) = reading base (before * base + worth c) text

unfoldable pub are_numerals : (base : ℕ) → Text → Bool
are_numerals base [] = true
are_numerals base (c ∷ text) = is_numeral base c && are_numerals base text

-- A text of digits that writes the number.
pub record Numeral (base : ℕ) (text : Text) (n : ℕ) : Type 0 where
  pub digits : are_numerals base text ≡ true
  pub value : reading base 0 text ≡ n

digit_char-worth : (d : ℕ) → d < 16 → worth (digit_char d) ≡ d
digit_char-worth d h = ground arith

digit_char-is_numeral : (base d : ℕ) → d < base → base ≤ 16 → is_numeral base (digit_char d) ≡ true
digit_char-is_numeral base d h small = ground arith

module _ (base : ℕ) (small : base ≤ 16) (below : (n : ℕ) → n % base < base)
    (joined : (n : ℕ) → n / base * base + n % base ≡ n)
    (shorter : (n left : ℕ) → n < 2 ^ suc left → n / base < 2 ^ left) where
  last : (n : ℕ) → worth (digit_char (n % base)) ≡ n % base
  last n = digit_char-worth (n % base) (omega (arith, below n))

  reading-digits_loop :
      (left n : ℕ) (rest : Text)
      → n < 2 ^ left
      → reading base 0 (digits_loop base left n rest) ≡ reading base n rest
  unfolding digits_loop reading
  reading-digits_loop zero n rest h = let none_left : n ≡ 0 = omega arith in rw none_left refl
  reading-digits_loop (suc left) n rest h =
      let value : n / base * base + worth (digit_char (n % base)) ≡ n =
        ap (λ k. n / base * base + k) (last n) ∙ joined n in
      elim (Bool-cases (n / base == 0)) [
        | inl e ↦
            let no_more : 0 ≡ n / base = ground arith in
            rw e (
              ap (λ k. reading base k rest)
                (ap (λ q. q * base + worth (digit_char (n % base))) no_more ∙ value))
        | inr e ↦ rw e (
            reading-digits_loop left (n / base) (digit_char (n % base) ∷ rest) (shorter n left h)
            ∙ ap (λ k. reading base k rest) value)
      ]

  are_numerals-digits_loop :
      (left n : ℕ) (rest : Text)
      → are_numerals base rest ≡ true
      → are_numerals base (digits_loop base left n rest) ≡ true
  unfolding digits_loop are_numerals
  are_numerals-digits_loop zero n rest h = h
  are_numerals-digits_loop (suc left) n rest h =
      let here : are_numerals base (digit_char (n % base) ∷ rest) ≡ true =
        rw (digit_char-is_numeral base (n % base) (below n) small) h in
      elim (Bool-cases (n / base == 0)) [
        | inl e ↦ rw e here
        | inr e ↦ rw e (are_numerals-digits_loop left (n / base) _ here)
      ]

ten-reading : (left n : ℕ) → n < 2 ^ left → reading 10 0 (digits_loop 10 left n []) ≡ n
unfolding reading
ten-reading left n h =
    reading-digits_loop 10 (omega arith) (λ n. omega arith) (λ n. omega arith)
      (λ n left h. omega (arith, pow-suc 2 left)) left n [] h

pub decimal_long-Numeral : (n : ℕ) → n < 2 ^ 64 → Numeral 10 (decimal_long n) n
unfolding decimal_long are_numerals
decimal_long-Numeral n h = record {
  digits =
      are_numerals-digits_loop 10 (omega arith) (λ n. omega arith) (λ n. omega arith)
        (λ n left h. omega (arith, pow-suc 2 left)) 64 n [] refl;
  value = ten-reading 64 n h;
}

-- Zeros before a number change nothing.
reading-zeros : (k n : ℕ) (text : Text) → reading 16 0 (zeros k n ++ text) ≡ reading 16 0 text
unfolding zeros reading
reading-zeros zero n text = refl
reading-zeros (suc k) n text = elim (Bool-cases (ltb n (16 ^ suc k))) [
  | inl e ↦ rw e (reading-zeros k n text)
  | inr e ↦ rw e (reading-zeros k n text)
]

are_numerals-zeros :
    (k n : ℕ) (text : Text)
    → are_numerals 16 text ≡ true
    → are_numerals 16 (zeros k n ++ text) ≡ true
unfolding zeros are_numerals
are_numerals-zeros zero n text h = h
are_numerals-zeros (suc k) n text h = elim (Bool-cases (ltb n (16 ^ suc k))) [
  | inl e ↦ rw e (are_numerals-zeros k n text h)
  | inr e ↦ rw e (are_numerals-zeros k n text h)
]

pub hex_word-Numeral : (n : ℕ) → n < 2 ^ 32 → Numeral 16 (hex_word n) n
unfolding hex_word are_numerals reading
hex_word-Numeral n h = record {
  digits = are_numerals-zeros 7 n (digits_loop 16 64 n []) (
      are_numerals-digits_loop 16 (omega arith) (λ n. omega arith) (λ n. omega arith)
        (λ n left h. omega (arith, pow-suc 2 left)) 64 n [] refl);
  value =
      reading-zeros 7 n (digits_loop 16 64 n [])
      ∙ reading-digits_loop 16 (omega arith) (λ n. omega arith) (λ n. omega arith)
          (λ n left h. omega (arith, pow-suc 2 left)) 64 n [] (omega arith);
}
