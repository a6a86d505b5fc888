-- ===== src/Asm/Registers/Total.antt =====
-- Runs of `c32_parse_register` on strings.
use crisp.Base.{
  ℕ, zero, suc, ◌+◌, ◌-◌, ◌≤◌, ◌<◌, ◌≡◌, ◌==◌, ltb, leb, ◌||◌, ◌&&◌, refl, arith, Bool, true, List,
  [], ◌∷◌, ok, Returns, returns, Bool-cases, inl, inr, Option, some, none,
}
use crisp.CString.Literal.{filled, filled-IsString}
use crisp.Base.Int.{ℤ, pos, negsuc}
use crisp.Array.{Array, load-ok}
use crisp.CString.Search.{IsString, strlen-IsString}
use crisp.Base.Runs.{Returns-bind, Returns-if, Returns-ok}
use crisp.CString.Total.{strcmp-Returns}
use crisp.Asm.Symbols.{is_zero}
use crisp.Asm.Registers.{
  register_names, number_loop, in_range, parse_number, parse_name, parse_register,
}

-- A register number, or -1.
abbrev pub IsRegister : ℤ → Type 0
IsRegister (pos reg) = reg < 32
IsRegister (negsuc n) = n ≡ 0

abbrev pub count : List Array → ℕ
count [] = 0
count (name ∷ names) = 1 + count names

all_filled : List Array → Bool
all_filled [] = true
all_filled (name ∷ names) = filled name && all_filled names

register_names-filled : all_filled register_names ≡ true
unfolding all_filled filled register_names
register_names-filled = refl

in_range-IsRegister : (reg : Option ℕ) → IsRegister (in_range reg)
unfolding in_range
in_range-IsRegister (some reg) = elim (Bool-cases (leb reg 31)) [
  | inl e ↦ rw e (ground arith)
  | inr e ↦ rw e refl
]
in_range-IsRegister none = refl

module _ (str : Array) (n : ℕ) (string : IsString str n) where
  number_loop-Returns :
      (left i reg : ℕ) → i + left ≤ n → Returns (λ _. Unit {0}) (number_loop str left i reg)
  unfolding number_loop
  number_loop-Returns zero i reg inside = returns tt
  number_loop-Returns (suc left) i reg inside = rw (load-ok str i (omega (arith, string.room))) (
      Returns-if (leb 48 (str.at i) && leb (str.at i) 57)
        (λ _. number_loop-Returns left (i + 1) _ (omega arith)) (λ _. returns tt))

  parse_number-Returns : 0 < n → Returns IsRegister (parse_number str n)
  unfolding parse_number
  parse_number-Returns positive = rw (load-ok str 0 (omega (arith, string.room))) (
      Returns-if ((str.at 0 == 82 || str.at 0 == 114) && ltb 1 n)
        (λ _.
          Returns-bind (number_loop-Returns (n - 1) 1 0 (omega arith))
            λ reg _. returns (in_range-IsRegister reg))
        (λ _. returns refl))

  parse_name-Returns :
      0 < n
      → (names : List Array) (reg : ℕ) → all_filled names ≡ true
      → reg + count names ≤ 32
      → Returns IsRegister (parse_name str n names reg)
  unfolding parse_name all_filled
  parse_name-Returns positive [] reg strings below = parse_number-Returns positive
  parse_name-Returns positive (name ∷ names) reg strings below =
      Returns-bind
        (strcmp-Returns str name n (name.size - 1) string (filled-IsString name (ground arith)))
        λ z _.
          Returns-if (is_zero z) (λ _. returns (omega arith))
            (λ _. parse_name-Returns positive names (reg + 1) (ground arith) (omega arith))

  pub parse_register-Returns : Returns IsRegister (parse_register str)
  unfolding parse_register register_names
  parse_register-Returns = rw (strlen-IsString str n string) (
      Returns-if (n == 0) (λ _. returns refl)
        (λ e.
          parse_name-Returns (ground arith) register_names 0 register_names-filled (omega arith)))

  -- The parse of a string ends without a fault, in a register number, below 32, or in -1.
  pub parse_register-IsRegister : (z : ℤ) × (parse_register str ≡ ok z) × IsRegister z
  parse_register-IsRegister = Returns-ok parse_register-Returns
