-- ===== src/Asm/Immediate/Texts.antt =====
-- `parse_immediate` of src/asm/c32_parser.c on the ways to write a number.
use crisp.Base.{
  ℕ, zero, suc, ◌+◌, ◌-◌, ◌≤◌, ◌<◌, ◌≡◌, ◌==◌, true, false, refl, ◌∙◌, arith, ok, u32, sub32, ◌≢◌,
}
use crisp.Array.{Array, load-ok}
use crisp.CString.Search.{IsString}
use crisp.CString.Same.{SameString, SameString-sized}
use crisp.Asm.Immediate.{parse_digits, parse_immediate, is_digit}
use crisp.Asm.Immediate.Decimal.{decimal, IsDecimal, parse_digits-decimal}
use crisp.Asm.Immediate.Hexadecimal.{hexadecimal, IsHexadecimal, parse_digits-hexadecimal}

-- Digits from `p` on to the end of the string, and their value, a `uint32_t`.
pub data Digits (text : Array) (p : ℕ) : ℕ → Type 0 where
  decimal_digits : {n : ℕ} → IsDecimal text n p → Digits text p (u32 (decimal text.at p (n - p)))
  hexadecimal_digits :
      {n : ℕ}
      → IsHexadecimal text n p
      → Digits text p (u32 (hexadecimal text.at (p + 2) (n - (p + 2))))

-- A number as it is written, and the `uint32_t` that it stands for.
pub data Number (text : Array) : ℕ → Type 0 where
  unsigned : {v : ℕ} → Digits text 0 v → Number text v
  plus : {v : ℕ} → text.at 0 ≡ b'+' → Digits text 1 v → Number text v
  minus : {v : ℕ} → text.at 0 ≡ b'-' → Digits text 1 v → Number text (sub32 0 v)

-- Only the string matters.
module _ (a b : Array) (n : ℕ) (same : SameString a b n) where
  decimal-same : (p k : ℕ) → p + k ≤ n → decimal b.at p k ≡ decimal a.at p k
  unfolding decimal
  decimal-same p zero h = refl
  decimal-same p (suc k) h =
      rw (decimal-same p k (omega arith), same.characters (p + k) (omega arith)) refl

  hexadecimal-same : (p k : ℕ) → p + k ≤ n → hexadecimal b.at p k ≡ hexadecimal a.at p k
  unfolding hexadecimal
  hexadecimal-same p zero h = refl
  hexadecimal-same p (suc k) h =
      rw (hexadecimal-same p k (omega arith), same.characters (p + k) (omega arith)) refl

  IsDecimal-same : {p : ℕ} → IsDecimal b n p → IsDecimal a n p
  IsDecimal-same d = record {
    text = same.left;
    some = d.some;
    digits = λ k from below. rw (same.characters k below) (d.digits k from below);
  }

  IsHexadecimal-same : {p : ℕ} → IsHexadecimal b n p → IsHexadecimal a n p
  IsHexadecimal-same {p = p} h = record {
    text = same.left;
    prefixed = h.prefixed;
    first = same.characters p (omega (arith, h.prefixed)) ∙ h.first;
    second = rw (same.characters (p + 1) (omega (arith, h.prefixed))) h.second;
    digits = λ k from below. rw (same.characters k below) (h.digits k from below);
  }

module _ (a b : Array) (n : ℕ) (same : SameString a b n) where
  sized : {m : ℕ} → IsString b m → SameString a b m
  sized s = SameString-sized n _ same s

  Digits-same : {p v : ℕ} → Digits b p v → Digits a p v
  Digits-same {p = p} (decimal_digits {n = m} d) =
      rw (decimal-same a b m (sized d.text) p (m - p) (omega (arith, d.some)))
        (decimal_digits (IsDecimal-same a b m (sized d.text) d))
  Digits-same {p = p} (hexadecimal_digits {n = m} h) =
      rw (hexadecimal-same a b m (sized h.text) (p + 2) (m - (p + 2)) (omega (arith, h.prefixed)))
        (hexadecimal_digits (IsHexadecimal-same a b m (sized h.text) h))

parse_digits-Digits : {text : Array} {p v : ℕ} → Digits text p v → parse_digits text p ≡ ok v
parse_digits-Digits (decimal_digits d) = parse_digits-decimal _ _ _ d
parse_digits-Digits (hexadecimal_digits h) = parse_digits-hexadecimal _ _ _ h

-- The digits start within the string, with one of 0 to 9.
Digits-first :
    {text : Array} {p v : ℕ} → Digits text p v → (p < text.size) × (is_digit (text.at p) ≡ true)
Digits-first (decimal_digits d) =
    (omega (arith, d.some, d.text.room), d.digits _ (omega arith) d.some)
Digits-first (hexadecimal_digits h) =
    (omega (arith, h.prefixed, h.text.room), ground (arith, h.first))

-- A string that does not end at once.
positive : {a b : Array} (n : ℕ) → SameString a b n → b.at 0 ≢ 0 → 0 < n
positive zero same more = absurd (more same.right.terminator)
positive (suc n) same more = omega arith

Number-same : {a b : Array} {n v : ℕ} → SameString a b n → Number b v → Number a v
Number-same same (unsigned d) = unsigned (Digits-same _ _ _ same d)
Number-same same (plus sign d) =
    plus (same.characters 0 (positive _ same (omega (arith, sign))) ∙ sign)
      (Digits-same _ _ _ same d)
Number-same same (minus sign d) =
    minus (same.characters 0 (positive _ same (omega (arith, sign))) ∙ sign)
      (Digits-same _ _ _ same d)

parse_immediate-written : {text : Array} {v : ℕ} → Number text v → parse_immediate text ≡ ok v
unfolding parse_immediate
parse_immediate-written {text = text} (unsigned d) =
    let (room, digit) = Digits-first d in
    let no_minus : (text.at 0 == b'-') ≡ false = ground arith in
    let no_plus : (text.at 0 == b'+') ≡ false = ground arith in
    rw (load-ok text 0 room, no_minus, no_plus) (parse_digits-Digits d)
parse_immediate-written {text = text} (plus sign d) =
    let (room, digit) = Digits-first d in
    rw (load-ok text 0 (omega arith), sign) (parse_digits-Digits d)
parse_immediate-written {text = text} (minus sign d) =
    let (room, digit) = Digits-first d in
    rw (load-ok text 0 (omega arith), sign, parse_digits-Digits d) refl

-- Each way to write a number, in a buffer that holds the same string, is parsed to the number.
pub parse_immediate-Number :
    {text : Array} {v n : ℕ} (token : Array)
    → Number text v
    → SameString token text n
    → parse_immediate token ≡ ok v
parse_immediate-Number token number copy = parse_immediate-written (Number-same copy number)
