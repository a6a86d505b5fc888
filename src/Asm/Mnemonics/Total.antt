-- ===== src/Asm/Mnemonics/Total.antt =====
-- Runs of `parse_opcode` on strings, and on the mnemonics.
use crisp.Base.{
  ℕ, ◌-◌, ◌<◌, ◌≡◌, ◌&&◌, refl, arith, ltb, ◌^◌, Bool, true, List, [], ◌∷◌, Returns, returns,
}
use crisp.Base.Int.{ℤ, pos, negsuc}
use crisp.Base.Runs.{Returns-bind, Returns-if}
use crisp.Array.{Array}
use crisp.CString.Literal.{filled, filled-IsString}
use crisp.CString.Search.{IsString}
use crisp.CString.Total.{strcmp-Returns}
use crisp.Asm.Symbols.{is_zero}
use crisp.Asm.Mnemonics.{mnemonics, find_mnemonic, parse_opcode}
use crisp.Vm.Opcode.{Opcode, code}

-- The code of an opcode, or -1.
abbrev pub IsOpcode : ℤ → Type 0
IsOpcode (pos n) = n < 2 ^ 8
IsOpcode (negsuc n) = n ≡ 0

all_proper : List (Array × Opcode) → Bool
all_proper [] = true
all_proper ((name, op) ∷ rest) = filled name && ltb (code op) 256 && all_proper rest

mnemonics-proper : all_proper mnemonics ≡ true
unfolding all_proper filled mnemonics code
mnemonics-proper = refl

module _ (str : Array) (n : ℕ) (string : IsString str n) where
  find_mnemonic-Returns :
      (names : List (Array × Opcode))
      → all_proper names ≡ true
      → Returns IsOpcode (find_mnemonic str names)
  unfolding find_mnemonic all_proper
  find_mnemonic-Returns [] proper = returns refl
  find_mnemonic-Returns ((name, op) ∷ rest) proper =
      Returns-bind
        (strcmp-Returns str name n (name.size - 1) string (filled-IsString name (ground arith)))
        λ z _.
          Returns-if (is_zero z) (λ _. returns (ground arith))
            (λ _. find_mnemonic-Returns rest (ground arith))

  pub parse_opcode-Returns : Returns IsOpcode (parse_opcode str)
  unfolding parse_opcode
  parse_opcode-Returns = find_mnemonic-Returns mnemonics mnemonics-proper
