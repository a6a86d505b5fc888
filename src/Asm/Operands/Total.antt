-- ===== src/Asm/Operands/Total.antt =====
-- Runs of the operand parser: the fields that it gives are in the range of their types.
use crisp.Base.{ℕ, ◌^◌, ◌≤◌, ◌<◌, ◌≡◌, refl, arith, Returns, returns, ltb-eq-true}
use crisp.Base.Int.{ℤ, pos, negsuc}
use crisp.Base.Runs.{Returns-bind}
use crisp.Vm.Instruction.{Instruction}
use crisp.Asm.Encode.{InRange}
use crisp.Asm.Symbols.{AsmState, get_symbol, max_symbols}
use crisp.Asm.Symbols.Total.{IsTable, IsIndex, find_symbol-Returns}
use crisp.Asm.Registers.Total.{parse_register-Returns}
use crisp.Asm.Immediate.{parse_immediate}
use crisp.Asm.Immediate.Total.{IsWord, parse_immediate-Returns}
use crisp.Asm.Tokens.{Tokens}
use crisp.Asm.Tokens.Total.{AreTokens}
use crisp.Asm.Operands.{
  Form, three_registers, two_registers_immediate, load_upper, shift_immediate, branch_two,
  branch_one, to_target, to_register, link_register, load_store, no_operands, min_tokens,
  register_byte, register_operand, found_target, branch_target, jump_target, operands,
}

abbrev IsByte : ℕ → Type 0
IsByte b = b < 2 ^ 8

register_byte-lt : (z : ℤ) → IsByte (register_byte z)
register_byte-lt (pos reg) = omega arith
register_byte-lt (negsuc n) = omega arith

-- What the operands leave of the instruction.
pub record Parsed (inst inst' : Instruction) : Type 0 where
  pub range : InRange inst'
  pub opcode : inst'.opcode ≡ inst.opcode

with_fields :
    {inst : Instruction} (rs rt rd imm : ℕ)
    → InRange inst
    → IsByte rs
    → IsByte rt
    → IsByte rd
    → IsWord imm
    → Parsed inst (record inst { rs = rs; rt = rt; rd = rd; immediate = imm })
with_fields rs rt rd imm r hs ht hd hi = record {
  range = record { opcode = r.opcode; rs = hs; rt = ht; rd = hd; immediate = hi };
  opcode = refl;
}

module _ (state : AsmState) (t : IsTable state.symbols state.num_symbols) (tokens : Tokens)
    (count : ℕ) (ts : AreTokens tokens count) where
  register-Returns : (i : ℕ) → i < count → Returns IsByte (register_operand (tokens i))
  unfolding register_operand
  register-Returns i below =
      let (k, s) = ts.strings i below in
      Returns-bind (parse_register-Returns (tokens i) k s) λ z _. returns (register_byte-lt z)

  immediate-Returns : (i : ℕ) → i < count → Returns IsWord (parse_immediate (tokens i))
  immediate-Returns i below =
      let (k, s) = ts.strings i below in parse_immediate-Returns (tokens i) k s

  found_target-Returns :
      (i : ℕ)
      → i < count
      → (place number : ℕ → ℕ) → ((a : ℕ) → a < 2 ^ 32 → IsWord (place a))
      → ((a : ℕ) → a < 2 ^ 32 → IsWord (number a))
      → (z : ℤ) → IsIndex state.num_symbols z
      → Returns IsWord (found_target state (tokens i) place number z)
  unfolding found_target get_symbol
  found_target-Returns i below place number hp hn (pos idx) h =
      rw (ltb-eq-true {a = idx} {b = max_symbols} (omega (arith, t.few)))
        (returns (hp _ (t.addresses idx h)))
  found_target-Returns i below place number hp hn (negsuc n) h =
      Returns-bind (immediate-Returns i below) λ imm w. returns (hn imm w)

  branch_target-Returns : (i : ℕ) → i < count → Returns IsWord (branch_target state (tokens i))
  unfolding branch_target
  branch_target-Returns i below =
      let (k, s) = ts.strings i below in
      Returns-bind (find_symbol-Returns (tokens i) k s state t)
        λ z h. found_target-Returns i below _ _ (λ a w. omega arith) (λ a w. w) z h

  jump_target-Returns : (i : ℕ) → i < count → Returns IsWord (jump_target state (tokens i))
  unfolding jump_target
  jump_target-Returns i below =
      let (k, s) = ts.strings i below in
      Returns-bind (find_symbol-Returns (tokens i) k s state t)
        λ z h. found_target-Returns i below _ _ (λ a w. omega arith) (λ a w. omega arith) z h

  pub operands-Returns :
      (form : Form) (inst : Instruction)
      → min_tokens form ≤ count
      → InRange inst
      → Returns (Parsed inst) (operands form state tokens inst)
  unfolding operands min_tokens
  operands-Returns three_registers inst h r =
      Returns-bind (register-Returns 1 (omega arith)) λ rd hd.
        Returns-bind (register-Returns 2 (omega arith)) λ rs hs.
          Returns-bind (register-Returns 3 (omega arith))
            λ rt ht. returns (with_fields rs rt rd 0 r hs ht hd (omega arith))
  operands-Returns two_registers_immediate inst h r =
      Returns-bind (register-Returns 1 (omega arith)) λ rt ht.
        Returns-bind (register-Returns 2 (omega arith)) λ rs hs.
          Returns-bind (immediate-Returns 3 (omega arith))
            λ imm hi. returns (with_fields rs rt _ imm r hs ht r.rd hi)
  operands-Returns load_upper inst h r = Returns-bind (register-Returns 1 (omega arith)) λ rt ht.
      Returns-bind (immediate-Returns 2 (omega arith))
        λ imm hi. returns (with_fields _ rt _ imm r r.rs ht r.rd hi)
  operands-Returns shift_immediate inst h r =
      Returns-bind (register-Returns 1 (omega arith)) λ rd hd.
        Returns-bind (register-Returns 2 (omega arith)) λ rt ht.
          Returns-bind (immediate-Returns 3 (omega arith))
            λ imm hi. returns (with_fields _ rt rd imm r r.rs ht hd hi)
  operands-Returns branch_two inst h r = Returns-bind (register-Returns 1 (omega arith)) λ rs hs.
      Returns-bind (register-Returns 2 (omega arith)) λ rt ht.
        Returns-bind (branch_target-Returns 3 (omega arith))
          λ imm hi. returns (with_fields rs rt _ imm r hs ht r.rd hi)
  operands-Returns branch_one inst h r = Returns-bind (register-Returns 1 (omega arith)) λ rs hs.
      Returns-bind (branch_target-Returns 2 (omega arith))
        λ imm hi. returns (with_fields rs _ _ imm r hs r.rt r.rd hi)
  operands-Returns to_target inst h r =
      Returns-bind (jump_target-Returns 1 (omega arith))
        λ imm hi. returns (with_fields _ _ _ imm r r.rs r.rt r.rd hi)
  operands-Returns to_register inst h r =
      Returns-bind (register-Returns 1 (omega arith))
        λ rs hs. returns (with_fields rs _ _ _ r hs r.rt r.rd r.immediate)
  operands-Returns link_register inst h r = Returns-bind (register-Returns 1 (omega arith)) λ rd hd.
      Returns-bind (register-Returns 2 (omega arith))
        λ rs hs. returns (with_fields rs _ rd _ r hs r.rt hd r.immediate)
  operands-Returns load_store inst h r = Returns-bind (register-Returns 1 (omega arith)) λ rt ht.
      Returns-bind (register-Returns 2 (omega arith)) λ rs hs.
        Returns-bind (immediate-Returns 3 (omega arith))
          λ imm hi. returns (with_fields rs rt _ imm r hs ht r.rd hi)
  operands-Returns no_operands inst h r = returns (record { range = r; opcode = refl })
