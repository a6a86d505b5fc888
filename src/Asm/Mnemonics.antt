-- ===== src/Asm/Mnemonics.antt =====
-- `parse_opcode` of src/asm/c32_parser.c.
pub mod Names
pub mod Total
use crisp.Base.{ℕ, Bool, if◌then◌else◌, List, [], ◌∷◌, Outcome, ok, ◌>>=◌}
use crisp.Base.Int.{ℤ, pos, negsuc}
use crisp.Array.{Array}
use crisp.CString.Literal.{literal}
use crisp.CString.{strcmp}
use crisp.Asm.Symbols.{is_zero}
use crisp.Vm.Opcode.{
  Opcode, special, arithmetic, logical, shift, comparison, memory, branch, jump, system, interrupt,
  privilege, Special, Arithmetic, Logical, Shift, Comparison, Memory, Branch, Jump, System,
  Interrupt, Privilege, code,
}

-- The comparisons, in their order.
unfoldable pub mnemonics : List (Array × Opcode)
unfolding literal
mnemonics =
    (literal "ADD", arithmetic Arithmetic.add)
    ∷ (literal "ADDU", arithmetic Arithmetic.addu)
    ∷ (literal "SUB", arithmetic Arithmetic.sub)
    ∷ (literal "SUBU", arithmetic Arithmetic.subu)
    ∷ (literal "ADDI", arithmetic Arithmetic.addi)
    ∷ (literal "ADDIU", arithmetic Arithmetic.addiu)
    ∷ (literal "AND", logical Logical.and)
    ∷ (literal "OR", logical Logical.or)
    ∷ (literal "XOR", logical Logical.xor)
    ∷ (literal "NOR", logical Logical.nor)
    ∷ (literal "ANDI", logical Logical.andi)
    ∷ (literal "ORI", logical Logical.ori)
    ∷ (literal "XORI", logical Logical.xori)
    ∷ (literal "LUI", logical Logical.lui)
    ∷ (literal "SLL", shift Shift.sll)
    ∷ (literal "SRL", shift Shift.srl)
    ∷ (literal "SRA", shift Shift.sra)
    ∷ (literal "SLLV", shift Shift.sllv)
    ∷ (literal "SRLV", shift Shift.srlv)
    ∷ (literal "SRAV", shift Shift.srav)
    ∷ (literal "SLT", comparison Comparison.slt)
    ∷ (literal "SLTU", comparison Comparison.sltu)
    ∷ (literal "SLTI", comparison Comparison.slti)
    ∷ (literal "SLTIU", comparison Comparison.sltiu)
    ∷ (literal "MUL", arithmetic Arithmetic.mul)
    ∷ (literal "MULH", arithmetic Arithmetic.mulh)
    ∷ (literal "MULHU", arithmetic Arithmetic.mulhu)
    ∷ (literal "DIV", arithmetic Arithmetic.div)
    ∷ (literal "DIVU", arithmetic Arithmetic.divu)
    ∷ (literal "REM", arithmetic Arithmetic.rem)
    ∷ (literal "REMU", arithmetic Arithmetic.remu)
    ∷ (literal "LW", memory Memory.lw)
    ∷ (literal "LH", memory Memory.lh)
    ∷ (literal "LHU", memory Memory.lhu)
    ∷ (literal "LB", memory Memory.lb)
    ∷ (literal "LBU", memory Memory.lbu)
    ∷ (literal "SW", memory Memory.sw)
    ∷ (literal "SH", memory Memory.sh)
    ∷ (literal "SB", memory Memory.sb)
    ∷ (literal "BEQ", branch Branch.beq)
    ∷ (literal "BNE", branch Branch.bne)
    ∷ (literal "BLEZ", branch Branch.blez)
    ∷ (literal "BGTZ", branch Branch.bgtz)
    ∷ (literal "BLTZ", branch Branch.bltz)
    ∷ (literal "BGEZ", branch Branch.bgez)
    ∷ (literal "J", jump Jump.j)
    ∷ (literal "JAL", jump Jump.jal)
    ∷ (literal "JR", jump Jump.jr)
    ∷ (literal "JALR", jump Jump.jalr)
    ∷ (literal "SYSCALL", system System.syscall)
    ∷ (literal "BREAK", system System.break)
    ∷ (literal "NOP", special Special.nop)
    ∷ (literal "EI", interrupt Interrupt.ei)
    ∷ (literal "DI", interrupt Interrupt.di)
    ∷ (literal "IRET", interrupt Interrupt.iret)
    ∷ (literal "RAISE", interrupt Interrupt.raise)
    ∷ (literal "GETPC", interrupt Interrupt.getpc)
    ∷ (literal "ENABLE_PAGING", privilege Privilege.enable_paging)
    ∷ (literal "DISABLE_PAGING", privilege Privilege.disable_paging)
    ∷ (literal "SET_PTBR", privilege Privilege.set_ptbr)
    ∷ (literal "ENTER_USER", privilege Privilege.enter_user)
    ∷ (literal "GETMODE", privilege Privilege.getmode)
    ∷ []

-- `if (c32_strcmp(mnemonic, name) == 0) return op;`, and `return -1` at the end
unfoldable pub find_mnemonic : Array → List (Array × Opcode) → Outcome ℤ
unfolding code
find_mnemonic str [] = ok (negsuc 0)
find_mnemonic str ((name, op) ∷ rest) = do
  order ← strcmp str name
  let others = find_mnemonic str rest
  if is_zero order then ok (pos (code op)) else others

unfoldable pub parse_opcode : Array → Outcome ℤ
parse_opcode str = find_mnemonic str mnemonics
