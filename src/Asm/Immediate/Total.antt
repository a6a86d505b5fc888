-- ===== src/Asm/Immediate/Total.antt =====
-- Runs of `parse_immediate` on strings.
use crisp.Base.{
  ℕ, zero, suc, ◌+◌, ◌^◌, ◌≤◌, ◌<◌, ◌≡◌, ◌≢◌, ◌==◌, refl, arith, true, Option, some, none, Outcome,
  Returns, returns,
}
use crisp.Base.Bits.{or_lt}
use crisp.Base.Runs.{Returns-bind, Returns-if}
use crisp.Array.{Array, load-ok}
use crisp.CString.Search.{IsString}
use crisp.Asm.Immediate.{
  is_digit, hex_digit, hex_next, hex_loop, decimal_loop, has_prefix, parse_digits, parse_immediate,
}

abbrev pub IsWord : ℕ → Type 0
IsWord v = v < 2 ^ 32

hex_digit-lt : (c d : ℕ) → hex_digit c ≡ some d → (d < 16) × (c ≢ 0)
hex_digit-lt c d e = ground arith

hex_next-Returns :
    (next : ℕ → Outcome ℕ) (c value : ℕ) (o : Option ℕ)
    → hex_digit c ≡ o
    → ((v : ℕ) → IsWord v → c ≢ 0 → Returns IsWord (next v))
    → IsWord value
    → Returns IsWord (hex_next next o value)
unfolding hex_next
hex_next-Returns next c value none e later word = returns word
hex_next-Returns next c value (some d) e later word =
    let (small, nz) = hex_digit-lt c d e in later _ (or_lt 32 _ d (omega arith) (omega arith)) nz

module _ (str : Array) (n : ℕ) (string : IsString str n) where
  hex_loop-Returns :
      (left p value : ℕ)
      → p ≤ n
      → n < p + left
      → IsWord value
      → Returns IsWord (hex_loop str left p value)
  unfolding hex_loop
  hex_loop-Returns zero p value h enough word = absurd (omega arith)
  hex_loop-Returns (suc left) p value h enough word =
      rw (load-ok str p (omega (arith, string.room))) (
        hex_next-Returns (hex_loop str left (p + 1)) (str.at p) value _ refl
          (λ v w nz.
            hex_loop-Returns left (p + 1) v (ground (arith, string.terminator)) (omega arith) w)
          word)

  decimal_loop-Returns :
      (left p value : ℕ)
      → p ≤ n
      → n < p + left
      → IsWord value
      → Returns IsWord (decimal_loop str left p value)
  unfolding decimal_loop
  decimal_loop-Returns zero p value h enough word = absurd (omega arith)
  decimal_loop-Returns (suc left) p value h enough word =
      rw (load-ok str p (omega (arith, string.room))) (
        Returns-if (is_digit (str.at p))
          (λ e.
            decimal_loop-Returns left (p + 1) _ (ground (arith, string.terminator)) (omega arith)
              (omega arith))
          (λ _. returns word))

  -- With a prefix, there are two characters at `p`.
  has_prefix-Returns : (p : ℕ) → p ≤ n → Returns (λ b. b ≡ true → p + 2 ≤ n) (has_prefix str p)
  unfolding has_prefix
  has_prefix-Returns p h = rw (load-ok str p (omega (arith, string.room))) (
      Returns-if (str.at p == b'0')
        (λ e.
          let more : p + 1 ≤ n = ground (arith, string.terminator) in
          rw (load-ok str (p + 1) (omega (arith, string.room)))
            (returns (λ x. ground (arith, string.terminator))))
        (λ _. returns (λ x. cc)))

  parse_digits-Returns : (p : ℕ) → p ≤ n → Returns IsWord (parse_digits str p)
  unfolding parse_digits
  parse_digits-Returns p h = Returns-bind (has_prefix-Returns p h) λ hex two.
      Returns-if hex
        (λ e.
          hex_loop-Returns (str.size + 1) (p + 2) 0 (two e) (omega (arith, string.room))
            (omega arith))
        (λ _. decimal_loop-Returns (str.size + 1) p 0 h (omega (arith, string.room)) (omega arith))

  -- The parse of any string gives a word.
  pub parse_immediate-Returns : Returns IsWord (parse_immediate str)
  unfolding parse_immediate
  parse_immediate-Returns = rw (load-ok str 0 (omega (arith, string.room))) (
      Returns-if (str.at 0 == b'-')
        (λ e.
          Returns-bind (parse_digits-Returns 1 (ground (arith, string.terminator)))
            λ v w. returns (omega arith))
        (λ _.
          Returns-if (str.at 0 == b'+')
            (λ e. parse_digits-Returns 1 (ground (arith, string.terminator)))
            (λ _. parse_digits-Returns 0 (omega arith))))
