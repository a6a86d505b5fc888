-- ===== src/Asm/Immediate/Decimal.antt =====
-- `parse_immediate` of src/asm/c32_parser.c on decimal numbers.
use crisp.Base.{
  ℕ, zero, suc, ◌+◌, ◌-◌, ◌*◌, ◌≤◌, ◌<◌, ◌≡◌, ◌⊎◌, inl, inr, ◌==◌, leb, ◌||◌, ◌&&◌, true, false,
  Bool-cases, if◌then◌else◌, refl, ap, sym, ◌∙◌, arith, ok, u32, sub32,
}
use crisp.Array.{Array, load-ok}
use crisp.CString.Search.{IsString}
use crisp.Asm.Immediate.{is_digit, decimal_loop, has_prefix, parse_digits, parse_immediate}

-- The number that the `k` digits from `p` on write.
unfoldable pub decimal : (ℕ → ℕ) → (p k : ℕ) → ℕ
decimal f p zero = 0
decimal f p (suc k) = decimal f p k * 10 + (f (p + k) - b'0')

-- A string of digits from `p` on, one at least.
pub record IsDecimal (str : Array) (n p : ℕ) : Type 0 where
  pub text : IsString str n
  pub some : p < n
  pub digits : (k : ℕ) → p ≤ k → k < n → (leb b'0' (str.at k) && leb (str.at k) b'9') ≡ true

module _ (str : Array) (n p : ℕ) (d : IsDecimal str n p) where
  decimal_loop-decimal :
      (left k q : ℕ)
      → q ≡ p + k
      → q ≤ n
      → n < q + left
      → decimal_loop str left q (u32 (decimal str.at p k)) ≡ ok (u32 (decimal str.at p (n - p)))
  unfolding decimal_loop decimal
  decimal_loop-decimal zero k q e h enough = absurd (omega arith)
  decimal_loop-decimal (suc left) k q e h enough = elim (Bool-cases (q == n)) [
    | inl end ↦
        let stop : is_digit (str.at q) ≡ false = ground (arith, d.text.terminator) in
        let all : k ≡ n - p = ground arith in
        rw (load-ok str q (omega (arith, d.text.room)), stop)
          (ap (λ k. ok (u32 (decimal str.at p k))) all)
    | inr more ↦
        let digit : is_digit (str.at q) ≡ true = d.digits q (omega arith) (ground arith) in
        let next : u32 (u32 (decimal str.at p k) * 10 + (str.at q - b'0'))
            ≡ u32 (decimal str.at p (suc k)) =
          ground (arith, e) in
        rw (load-ok str q (omega (arith, d.text.room)), digit, next)
          (decimal_loop-decimal left (suc k) (q + 1) (omega arith) (ground arith) (omega arith))
  ]

  has_prefix-decimal : has_prefix str p ≡ ok false
  unfolding has_prefix
  has_prefix-decimal =
      let second : (str.at (p + 1) == b'x' || str.at (p + 1) == b'X') ≡ false =
        elim (Bool-cases (p + 1 == n)) [
          | inl end ↦ ground (arith, d.text.terminator)
          | inr more ↦ ground (arith, d.digits (p + 1), d.some)
        ] in
      rw
        (
          load-ok str p (omega (arith, d.some, d.text.room)),
          load-ok str (p + 1) (omega (arith, d.some, d.text.room)),
          second,
        )
        (elim (Bool-cases (str.at p == b'0')) [ inl e ↦ rw e refl | inr e ↦ rw e refl ])

  pub parse_digits-decimal : parse_digits str p ≡ ok (u32 (decimal str.at p (n - p)))
  unfolding parse_digits decimal
  parse_digits-decimal = rw has_prefix-decimal (
      decimal_loop-decimal (str.size + 1) 0 p (omega arith) (omega (arith, d.some))
        (omega (arith, d.text.room)))

  -- A decimal number, with a sign or without, is parsed to its value modulo 2^32, negated if the
  -- sign is a minus.
  pub parse_immediate-decimal :
      (p ≡ 0) ⊎ ((p ≡ 1) × ((str.at 0 ≡ b'-') ⊎ (str.at 0 ≡ b'+')))
      → parse_immediate str
        ≡ ok (
            if str.at 0 == b'-'
            then sub32 0 (u32 (decimal str.at p (n - p)))
            else u32 (decimal str.at p (n - p)))
  unfolding parse_immediate
  parse_immediate-decimal (inl start) =
      let run : parse_digits str 0 ≡ ok (u32 (decimal str.at p (n - p))) =
        ap (parse_digits str) (sym start) ∙ parse_digits-decimal in
      let first : is_digit (str.at 0) ≡ true = d.digits 0 (omega arith) (omega (arith, d.some)) in
      let no_minus : (str.at 0 == b'-') ≡ false = ground arith in
      let no_plus : (str.at 0 == b'+') ≡ false = ground arith in
      rw (load-ok str 0 (omega (arith, d.some, d.text.room)), no_minus, no_plus) run
  parse_immediate-decimal (inr (start, sign)) =
      let run : parse_digits str 1 ≡ ok (u32 (decimal str.at p (n - p))) =
        ap (parse_digits str) (sym start) ∙ parse_digits-decimal in
      elim sign [
        | inl minus ↦
            let e : (str.at 0 == b'-') ≡ true = ground arith in
            rw (load-ok str 0 (omega (arith, d.text.room)), e, run) refl
        | inr plus ↦
            let no_minus : (str.at 0 == b'-') ≡ false = ground arith in
            let e : (str.at 0 == b'+') ≡ true = ground arith in
            rw (load-ok str 0 (omega (arith, d.text.room)), no_minus, e) run
      ]
