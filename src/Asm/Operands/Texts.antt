-- ===== src/Asm/Operands/Texts.antt =====
-- The operands of `c32_asm_assemble_line` in src/asm/c32_parser.c, as they are written.
use crisp.Base.{
  length, ℕ, zero, suc, ◌+◌, ◌<◌, ◌≡◌, refl, ap, arith, List, ◌∷◌, ok, u32, sub32, ltb-eq-true, ltb,
  false, Bool-cases, inl, inr, ◌>>=◌,
}
use crisp.Base.Int.{pos, negsuc}
use crisp.Array.{Array}
use crisp.CString.Same.{SameString, strcmp-same_right}
use crisp.Vm.Instruction.{Instruction}
use crisp.Asm.Symbols.{Symbol, AsmState, get_symbol, find_loop, find_symbol, max_symbols}
use crisp.Asm.Registers.Texts.{Register, parse_register-Register, Register-lt}
use crisp.Asm.Immediate.{parse_immediate}
use crisp.Asm.Immediate.Texts.{Number, parse_immediate-Number}
use crisp.Asm.Tokens.{Tokens}
use crisp.Asm.Tokens.Spells.{Holds}
use crisp.Asm.Operands.{
  Form, three_registers, two_registers_immediate, load_upper, shift_immediate, branch_two,
  branch_one, to_target, to_register, link_register, load_store, no_operands, min_tokens,
  register_operand, found_target, branch_target, jump_target, operands,
}

-- A label of the table, and its address.
pub data Label (s : AsmState) (text : Array) : ℕ → Type 0 where
  label :
      {idx : ℕ}
      → find_symbol s text ≡ ok (pos idx)
      → idx < max_symbols
      → Label s text (s.symbols idx).address

-- What a branch goes to: a label, at its distance from the next instruction, or the distance as a
-- number.
pub data Distance (s : AsmState) (text : Array) : ℕ → Type 0 where
  to_label :
      {address : ℕ}
      → Label s text address
      → Distance s text (sub32 address (u32 (s.current_address + 8)))
  to_number : {k v : ℕ} → find_symbol s text ≡ ok (negsuc k) → Number text v → Distance s text v

-- The operands of each form, in the order in which they are written, and the instruction. A jump
-- goes to a label of the program where it is loaded by default, at 0x1000.
pub data Operands (s : AsmState) (op : ℕ) : Form → List Array → Instruction → Type 0 where
  three_registers_text :
      {a b c : Array} {more : List Array} {rd rs rt : ℕ}
      → Register a rd
      → Register b rs
      → Register c rt
      → Operands s op three_registers
          (a ∷ b ∷ c ∷ more)
          (record { opcode = op; rs = rs; rt = rt; rd = rd; immediate = 0 })
  two_registers_immediate_text :
      {a b c : Array} {more : List Array} {rt rs imm : ℕ}
      → Register a rt
      → Register b rs
      → Number c imm
      → Operands s op two_registers_immediate
          (a ∷ b ∷ c ∷ more)
          (record { opcode = op; rs = rs; rt = rt; rd = 0; immediate = imm })
  load_upper_text :
      {a b : Array} {more : List Array} {rt imm : ℕ}
      → Register a rt
      → Number b imm
      → Operands s op load_upper
          (a ∷ b ∷ more)
          (record { opcode = op; rs = 0; rt = rt; rd = 0; immediate = imm })
  shift_immediate_text :
      {a b c : Array} {more : List Array} {rd rt imm : ℕ}
      → Register a rd
      → Register b rt
      → Number c imm
      → Operands s op shift_immediate
          (a ∷ b ∷ c ∷ more)
          (record { opcode = op; rs = 0; rt = rt; rd = rd; immediate = imm })
  branch_two_text :
      {a b c : Array} {more : List Array} {rs rt imm : ℕ}
      → Register a rs
      → Register b rt
      → Distance s c imm
      → Operands s op branch_two
          (a ∷ b ∷ c ∷ more)
          (record { opcode = op; rs = rs; rt = rt; rd = 0; immediate = imm })
  branch_one_text :
      {a b : Array} {more : List Array} {rs imm : ℕ}
      → Register a rs
      → Distance s b imm
      → Operands s op branch_one
          (a ∷ b ∷ more)
          (record { opcode = op; rs = rs; rt = 0; rd = 0; immediate = imm })
  to_target_text :
      {a : Array} {more : List Array} {address : ℕ}
      → Label s a address
      → Operands s op to_target
          (a ∷ more)
          (record { opcode = op; rs = 0; rt = 0; rd = 0; immediate = u32 (address + 0x1000) })
  to_register_text :
      {a : Array} {more : List Array} {rs : ℕ}
      → Register a rs
      → Operands s op to_register
          (a ∷ more)
          (record { opcode = op; rs = rs; rt = 0; rd = 0; immediate = 0 })
  link_register_text :
      {a b : Array} {more : List Array} {rd rs : ℕ}
      → Register a rd
      → Register b rs
      → Operands s op link_register
          (a ∷ b ∷ more)
          (record { opcode = op; rs = rs; rt = 0; rd = rd; immediate = 0 })
  load_store_text :
      {a b c : Array} {more : List Array} {rt rs imm : ℕ}
      → Register a rt
      → Register b rs
      → Number c imm
      → Operands s op load_store
          (a ∷ b ∷ c ∷ more)
          (record { opcode = op; rs = rs; rt = rt; rd = 0; immediate = imm })
  no_operands_text :
      {more : List Array}
      → Operands s op no_operands more
          (record { opcode = op; rs = 0; rt = 0; rd = 0; immediate = 0 })

-- The search for a label that is compared with another copy of the same string.
find_loop-same :
    (symbols : ℕ → Symbol) (a b : Array) (n : ℕ)
    → SameString a b n
    → (left i : ℕ) → find_loop symbols a left i ≡ find_loop symbols b left i
unfolding find_loop get_symbol
find_loop-same symbols a b n same zero i = refl
find_loop-same symbols a b n same (suc left) i = elim (Bool-cases (ltb i max_symbols)) [
  | inl e ↦
      rw
        (
          e,
          strcmp-same_right a b n same (symbols i).name,
          find_loop-same symbols a b n same left (i + 1),
        )
        refl
  | inr e ↦ rw e refl
]

module _ (s : AsmState) where
  find_symbol-same : {a b : Array} {n : ℕ} → SameString a b n → find_symbol s a ≡ find_symbol s b
  unfolding find_symbol
  find_symbol-same same = find_loop-same s.symbols _ _ _ same s.num_symbols 0

  register_operand-Register :
      {text : Array} {reg : ℕ} (token : Array)
      → Register text reg
      → (m : ℕ) × SameString token text m
      → register_operand token ≡ ok reg
  unfolding register_operand
  register_operand-Register token r (m, same) =
      rw (parse_register-Register token r same) (ap ok (omega (arith, Register-lt r)))

  parse_immediate-token :
      {text : Array} {v : ℕ} (token : Array)
      → Number text v
      → (m : ℕ) × SameString token text m
      → parse_immediate token ≡ ok v
  parse_immediate-token token number (m, same) = parse_immediate-Number token number same

  found_target-Label :
      {text : Array} {address : ℕ} (place number : ℕ → ℕ) (token : Array)
      → Label s text address
      → (m : ℕ) × SameString token text m
      → (find_symbol s token >>= found_target s token place number) ≡ ok (place address)
  unfolding found_target get_symbol
  found_target-Label place number token (label {idx = idx} found below) (m, same) =
      rw (find_symbol-same same, found, ltb-eq-true below) refl

  branch_target-Distance :
      {text : Array} {v : ℕ} (token : Array)
      → Distance s text v
      → (m : ℕ) × SameString token text m
      → branch_target s token ≡ ok v
  unfolding branch_target found_target
  branch_target-Distance token (to_label l) h = found_target-Label _ _ token l h
  branch_target-Distance token (to_number missing written) (m, same) =
      rw (find_symbol-same same, missing, parse_immediate-Number token written same) refl

  jump_target-Label :
      {text : Array} {address : ℕ} (token : Array)
      → Label s text address
      → (m : ℕ) × SameString token text m
      → jump_target s token ≡ ok (u32 (address + 0x1000))
  unfolding jump_target
  jump_target-Label token l h = found_target-Label _ _ token l h

  -- Operands that are written in the order of their form are parsed to the fields.
  pub operands-Operands :
      {op : ℕ} {form : Form} {texts : List Array} {inst : Instruction} (tokens : Tokens)
      → Operands s op form texts inst
      → Holds tokens 1 texts
      → operands form s tokens (record { opcode = op; rs = 0; rt = 0; rd = 0; immediate = 0 })
        ≡ ok inst
  unfolding operands
  operands-Operands tokens (three_registers_text a b c) (ha, (hb, (hc, h))) =
      rw
        (
          register_operand-Register _ a ha,
          register_operand-Register _ b hb,
          register_operand-Register _ c hc,
        )
        refl
  operands-Operands tokens (two_registers_immediate_text a b c) (ha, (hb, (hc, h))) =
      rw
        (
          register_operand-Register _ a ha,
          register_operand-Register _ b hb,
          parse_immediate-token _ c hc,
        )
        refl
  operands-Operands tokens (load_upper_text a b) (ha, (hb, h)) =
      rw (register_operand-Register _ a ha, parse_immediate-token _ b hb) refl
  operands-Operands tokens (shift_immediate_text a b c) (ha, (hb, (hc, h))) =
      rw
        (
          register_operand-Register _ a ha,
          register_operand-Register _ b hb,
          parse_immediate-token _ c hc,
        )
        refl
  operands-Operands tokens (branch_two_text a b c) (ha, (hb, (hc, h))) =
      rw
        (
          register_operand-Register _ a ha,
          register_operand-Register _ b hb,
          branch_target-Distance _ c hc,
        )
        refl
  operands-Operands tokens (branch_one_text a b) (ha, (hb, h)) =
      rw (register_operand-Register _ a ha, branch_target-Distance _ b hb) refl
  operands-Operands tokens (to_target_text a) (ha, h) = rw (jump_target-Label _ a ha) refl
  operands-Operands tokens (to_register_text a) (ha, h) = rw (register_operand-Register _ a ha) refl
  operands-Operands tokens (link_register_text a b) (ha, (hb, h)) =
      rw (register_operand-Register _ a ha, register_operand-Register _ b hb) refl
  operands-Operands tokens (load_store_text a b c) (ha, (hb, (hc, h))) =
      rw
        (
          register_operand-Register _ a ha,
          register_operand-Register _ b hb,
          parse_immediate-token _ c hc,
        )
        refl
  operands-Operands tokens no_operands_text h = refl

-- A written line has the tokens that its form asks for.
pub min_tokens-Operands :
    {s : AsmState} {op : ℕ} {form : Form} {texts : List Array} {inst : Instruction}
    → Operands s op form texts inst
    → ltb (suc (length texts)) (min_tokens form) ≡ false
unfolding min_tokens
min_tokens-Operands (three_registers_text a b c) = ground arith
min_tokens-Operands (two_registers_immediate_text a b c) = ground arith
min_tokens-Operands (load_upper_text a b) = ground arith
min_tokens-Operands (shift_immediate_text a b c) = ground arith
min_tokens-Operands (branch_two_text a b c) = ground arith
min_tokens-Operands (branch_one_text a b) = ground arith
min_tokens-Operands (to_target_text a) = ground arith
min_tokens-Operands (to_register_text a) = ground arith
min_tokens-Operands (link_register_text a b) = ground arith
min_tokens-Operands (load_store_text a b c) = ground arith
min_tokens-Operands no_operands_text = ground arith
