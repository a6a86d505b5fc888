-- ===== src/Tests/Numbers.antt =====
-- A number in a token.
use crisp.Base.{◌≡◌, refl, arith, true, ◌==◌, ◌||◌}
use crisp.Base.Table.{all_below, all_below_sound}
use crisp.Array.{Array}
use crisp.CString.Literal.{literal, filled, filled-IsString}
use crisp.CString.Search.{IsString}
use crisp.Asm.Immediate.{is_digit}
use crisp.Asm.Immediate.Decimal.{IsDecimal}

abbrev pub minus_42 : Array
minus_42 = literal "-42"

minus_42-filled : filled minus_42 ≡ true
unfolding filled literal
minus_42-filled = refl

minus_42-IsString : IsString minus_42 3
unfolding literal
minus_42-IsString = filled-IsString minus_42 minus_42-filled

minus_42-digits : all_below 3 (λ k. k == 0 || is_digit (minus_42.at k)) ≡ true
unfolding all_below literal
minus_42-digits = refl

pub minus_42-IsDecimal : IsDecimal minus_42 3 1
minus_42-IsDecimal = record {
  text = minus_42-IsString;
  some = omega arith;
  digits = λ k a b.
      ground
        (arith, all_below_sound 3 (λ k. k == 0 || is_digit (minus_42.at k)) minus_42-digits k b);
}

pub minus_42-sign : minus_42.at 0 ≡ b'-'
unfolding literal
minus_42-sign = refl
