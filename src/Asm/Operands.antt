-- ===== src/Asm/Operands.antt =====
-- The operands of `c32_asm_assemble_line` in src/asm/c32_parser.c, by the form of the instruction.
pub mod Formats
pub mod Range
pub mod Targets
pub mod Texts
pub mod Total
use crisp.Base.{
  ℕ, ◌+◌, ◌-◌, ◌%◌, ◌^◌, ◌==◌, ◌||◌, Bool, true, false, if◌then◌else◌, List, [], ◌∷◌, Outcome, ok,
  ◌>>=◌, u8, u32, sub32,
}
use crisp.Base.Int.{ℤ, pos, negsuc}
use crisp.Array.{Array}
use crisp.Asm.Symbols.{AsmState, Symbol, get_symbol, find_symbol}
use crisp.Asm.Registers.{parse_register}
use crisp.Asm.Immediate.{parse_immediate}
use crisp.Asm.Tokens.{Tokens}
use crisp.Vm.Instruction.{Instruction}
use crisp.Vm.Opcode.{
  Opcode, arithmetic, logical, shift, comparison, memory, branch, jump, Arithmetic, Logical, Shift,
  Comparison, Memory, Branch, Jump, code,
}

-- The branches of the chain of tests on the opcode, in their order.
pub data Form : Type 0 where
  three_registers two_registers_immediate load_upper shift_immediate : Form
  branch_two branch_one to_target to_register link_register load_store no_operands : Form

abbrev pub is_one_of : ℕ → List Opcode → Bool
is_one_of n [] = false
is_one_of n (op ∷ ops) = n == code op || is_one_of n ops

unfoldable pub form_of : ℕ → Form
unfolding code
form_of opcode =
    if is_one_of opcode (
      arithmetic Arithmetic.add
      ∷ arithmetic Arithmetic.addu
      ∷ arithmetic Arithmetic.sub
      ∷ arithmetic Arithmetic.subu
      ∷ logical Logical.and
      ∷ logical Logical.or
      ∷ logical Logical.xor
      ∷ logical Logical.nor
      ∷ comparison Comparison.slt
      ∷ comparison Comparison.sltu
      ∷ arithmetic Arithmetic.mul
      ∷ arithmetic Arithmetic.mulh
      ∷ arithmetic Arithmetic.mulhu
      ∷ arithmetic Arithmetic.div
      ∷ arithmetic Arithmetic.divu
      ∷ arithmetic Arithmetic.rem
      ∷ arithmetic Arithmetic.remu
      ∷ shift Shift.sllv
      ∷ shift Shift.srlv
      ∷ shift Shift.srav
      ∷ [])
    then three_registers
    else if is_one_of opcode (
        arithmetic Arithmetic.addi
        ∷ arithmetic Arithmetic.addiu
        ∷ logical Logical.andi
        ∷ logical Logical.ori
        ∷ logical Logical.xori
        ∷ comparison Comparison.slti
        ∷ comparison Comparison.sltiu
        ∷ [])
    then two_registers_immediate
    else if opcode == code (logical Logical.lui)
    then load_upper
    else if is_one_of opcode (shift Shift.sll ∷ shift Shift.srl ∷ shift Shift.sra ∷ [])
    then shift_immediate
    else if is_one_of opcode (branch Branch.beq ∷ branch Branch.bne ∷ [])
    then branch_two
    else if is_one_of opcode
        (branch Branch.blez ∷ branch Branch.bgtz ∷ branch Branch.bltz ∷ branch Branch.bgez ∷ [])
    then branch_one
    else if is_one_of opcode (jump Jump.j ∷ jump Jump.jal ∷ [])
    then to_target
    else if opcode == code (jump Jump.jr)
    then to_register
    else if opcode == code (jump Jump.jalr)
    then link_register
    else if is_one_of opcode (
        memory Memory.lw
        ∷ memory Memory.lh
        ∷ memory Memory.lhu
        ∷ memory Memory.lb
        ∷ memory Memory.lbu
        ∷ memory Memory.sw
        ∷ memory Memory.sh
        ∷ memory Memory.sb
        ∷ [])
    then load_store
    else no_operands

-- `if (token_count < n) return -1;`
unfoldable pub min_tokens : Form → ℕ
min_tokens three_registers = 4
min_tokens two_registers_immediate = 4
min_tokens load_upper = 3
min_tokens shift_immediate = 4
min_tokens branch_two = 4
min_tokens branch_one = 3
min_tokens to_target = 2
min_tokens to_register = 2
min_tokens link_register = 3
min_tokens load_store = 4
min_tokens no_operands = 0

-- `(uint8_t)reg`: a failed parse, -1, becomes 255.
abbrev pub register_byte : ℤ → ℕ
register_byte (pos reg) = u8 reg
register_byte (negsuc n) = 255 - u8 n

unfoldable pub register_operand : Array → Outcome ℕ
register_operand token = parse_register token >>= λ reg. ok (register_byte reg)

-- A label, whose address goes through `place`, or a number.
unfoldable pub found_target : AsmState → Array → (ℕ → ℕ) → (ℕ → ℕ) → ℤ → Outcome ℕ
found_target state token place number (pos idx) = do
  entry ← get_symbol state.symbols idx
  ok (place entry.address)
found_target state token place number (negsuc _) = do imm ← parse_immediate token; ok (number imm)

unfoldable pub branch_target : AsmState → Array → Outcome ℕ
branch_target state token = do
  idx ← find_symbol state token
  found_target state token (λ address. sub32 address (u32 (state.current_address + 8))) (λ imm. imm)
      idx

-- 0x1000 is the default load address.
unfoldable pub jump_target : AsmState → Array → Outcome ℕ
jump_target state token = do
  idx ← find_symbol state token
  found_target state token (λ address. u32 (address + 0x1000)) (λ imm. u32 (imm + 0x1000)) idx

unfoldable pub operands : Form → AsmState → Tokens → Instruction → Outcome Instruction
operands three_registers state tokens inst = do
  rd ← register_operand (tokens 1)
  rs ← register_operand (tokens 2)
  rt ← register_operand (tokens 3)
  ok (record inst { rd = rd; rs = rs; rt = rt; immediate = 0 })
operands two_registers_immediate state tokens inst = do
  rt ← register_operand (tokens 1)
  rs ← register_operand (tokens 2)
  imm ← parse_immediate (tokens 3)
  ok (record inst { rt = rt; rs = rs; immediate = imm })
operands load_upper state tokens inst = do
  rt ← register_operand (tokens 1)
  imm ← parse_immediate (tokens 2)
  ok (record inst { rt = rt; immediate = imm })
operands shift_immediate state tokens inst = do
  rd ← register_operand (tokens 1)
  rt ← register_operand (tokens 2)
  imm ← parse_immediate (tokens 3)
  ok (record inst { rd = rd; rt = rt; immediate = imm })
operands branch_two state tokens inst = do
  rs ← register_operand (tokens 1)
  rt ← register_operand (tokens 2)
  imm ← branch_target state (tokens 3)
  ok (record inst { rs = rs; rt = rt; immediate = imm })
operands branch_one state tokens inst = do
  rs ← register_operand (tokens 1)
  imm ← branch_target state (tokens 2)
  ok (record inst { rs = rs; immediate = imm })
operands to_target state tokens inst = do
  imm ← jump_target state (tokens 1)
  ok (record inst { immediate = imm })
operands to_register state tokens inst = do
  rs ← register_operand (tokens 1)
  ok (record inst { rs = rs })
operands link_register state tokens inst = do
  rd ← register_operand (tokens 1)
  rs ← register_operand (tokens 2)
  ok (record inst { rd = rd; rs = rs })
operands load_store state tokens inst = do
  rt ← register_operand (tokens 1)
  rs ← register_operand (tokens 2)
  imm ← parse_immediate (tokens 3)
  ok (record inst { rt = rt; rs = rs; immediate = imm })
operands no_operands state tokens inst = ok inst
