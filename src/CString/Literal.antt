-- ===== src/CString/Literal.antt =====
-- C string literals: the characters and a terminating zero.
use Prim.Native.Char.{code}
use Prim.Native.String.{String}
use crisp.Base.{
  length, ℕ, zero, suc, ◌-◌, ◌≡◌, ◌==◌, ltb, ◌&&◌, not, arith, Bool, true, List, [], ◌∷◌,
}
use crisp.Base.Table.{all_below, all_below_sound}
use crisp.Array.{Array}
use crisp.CString.Search.{IsString}

-- The bytes of a text, which is ASCII.
abbrev pub codes : String → List ℕ
codes String.[] = []
codes (String.◌∷◌ c s) = code c ∷ codes s

abbrev nth : List ℕ → ℕ → ℕ
nth [] i = 0
nth (c ∷ cs) zero = c
nth (c ∷ cs) (suc i) = nth cs i

unfoldable pub literal : String → Array
literal s = record { size = suc (length (codes s)); at = nth (codes s) }

-- An array that holds a string up to its last cell.
unfoldable pub filled : Array → Bool
unfolding all_below
filled name =
    ltb 0 name.size
    && (name.at (name.size - 1) == 0)
    && all_below (name.size - 1) (λ k. not (name.at k == 0))

pub filled-IsString : (name : Array) → filled name ≡ true → IsString name (name.size - 1)
unfolding filled
filled-IsString name e = record {
  room = ground arith;
  terminator = ground arith;
  characters = λ k h.
      ground
        (arith, all_below_sound (name.size - 1) (λ k. not (name.at k == 0)) (ground arith) k h);
}
