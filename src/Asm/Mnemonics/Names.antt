-- ===== src/Asm/Mnemonics/Names.antt =====
-- `parse_opcode` of src/asm/c32_parser.c on the mnemonics of docs/crisp32-spec.md.
use Prim.Native.String.{String}
use crisp.Base.{
  ℕ, ◌<◌, ◌≡◌, ◌&&◌, ◌==◌, ltb, refl, ◌∙◌, ap, arith, Bool, true, false, List, [], ◌∷◌, Option,
  none, some, Outcome, ok,
}
use crisp.Base.Int.{ℤ, pos, negsuc}
use crisp.Base.Table.{all_below, all_below_sound}
use crisp.Array.{Array, load}
use crisp.CString.{strcmp, strcmp_loop}
use crisp.CString.Literal.{literal}
use crisp.CString.Same.{SameString, strcmp-same_left}
use crisp.Asm.Mnemonics.{mnemonics, find_mnemonic, parse_opcode}
use crisp.Vm.Opcode.{
  Opcode, special, arithmetic, logical, shift, comparison, memory, branch, jump, system, interrupt,
  privilege, Special, Arithmetic, Logical, Shift, Comparison, Memory, Branch, Jump, System,
  Interrupt, Privilege, code, opcode_of, opcodes, select,
}
use crisp.Vm.Opcode.Codes.{opcode_of-code}

-- The name of each opcode.
unfoldable pub mnemonic : Opcode → String
mnemonic (arithmetic Arithmetic.add) = "ADD"
mnemonic (arithmetic Arithmetic.addu) = "ADDU"
mnemonic (arithmetic Arithmetic.sub) = "SUB"
mnemonic (arithmetic Arithmetic.subu) = "SUBU"
mnemonic (arithmetic Arithmetic.addi) = "ADDI"
mnemonic (arithmetic Arithmetic.addiu) = "ADDIU"
mnemonic (logical Logical.and) = "AND"
mnemonic (logical Logical.or) = "OR"
mnemonic (logical Logical.xor) = "XOR"
mnemonic (logical Logical.nor) = "NOR"
mnemonic (logical Logical.andi) = "ANDI"
mnemonic (logical Logical.ori) = "ORI"
mnemonic (logical Logical.xori) = "XORI"
mnemonic (logical Logical.lui) = "LUI"
mnemonic (shift Shift.sll) = "SLL"
mnemonic (shift Shift.srl) = "SRL"
mnemonic (shift Shift.sra) = "SRA"
mnemonic (shift Shift.sllv) = "SLLV"
mnemonic (shift Shift.srlv) = "SRLV"
mnemonic (shift Shift.srav) = "SRAV"
mnemonic (comparison Comparison.slt) = "SLT"
mnemonic (comparison Comparison.sltu) = "SLTU"
mnemonic (comparison Comparison.slti) = "SLTI"
mnemonic (comparison Comparison.sltiu) = "SLTIU"
mnemonic (arithmetic Arithmetic.mul) = "MUL"
mnemonic (arithmetic Arithmetic.mulh) = "MULH"
mnemonic (arithmetic Arithmetic.mulhu) = "MULHU"
mnemonic (arithmetic Arithmetic.div) = "DIV"
mnemonic (arithmetic Arithmetic.divu) = "DIVU"
mnemonic (arithmetic Arithmetic.rem) = "REM"
mnemonic (arithmetic Arithmetic.remu) = "REMU"
mnemonic (memory Memory.lw) = "LW"
mnemonic (memory Memory.lh) = "LH"
mnemonic (memory Memory.lhu) = "LHU"
mnemonic (memory Memory.lb) = "LB"
mnemonic (memory Memory.lbu) = "LBU"
mnemonic (memory Memory.sw) = "SW"
mnemonic (memory Memory.sh) = "SH"
mnemonic (memory Memory.sb) = "SB"
mnemonic (branch Branch.beq) = "BEQ"
mnemonic (branch Branch.bne) = "BNE"
mnemonic (branch Branch.blez) = "BLEZ"
mnemonic (branch Branch.bgtz) = "BGTZ"
mnemonic (branch Branch.bltz) = "BLTZ"
mnemonic (branch Branch.bgez) = "BGEZ"
mnemonic (jump Jump.j) = "J"
mnemonic (jump Jump.jal) = "JAL"
mnemonic (jump Jump.jr) = "JR"
mnemonic (jump Jump.jalr) = "JALR"
mnemonic (system System.syscall) = "SYSCALL"
mnemonic (system System.break) = "BREAK"
mnemonic (special Special.nop) = "NOP"
mnemonic (interrupt Interrupt.ei) = "EI"
mnemonic (interrupt Interrupt.di) = "DI"
mnemonic (interrupt Interrupt.iret) = "IRET"
mnemonic (interrupt Interrupt.raise) = "RAISE"
mnemonic (interrupt Interrupt.getpc) = "GETPC"
mnemonic (privilege Privilege.enable_paging) = "ENABLE_PAGING"
mnemonic (privilege Privilege.disable_paging) = "DISABLE_PAGING"
mnemonic (privilege Privilege.set_ptbr) = "SET_PTBR"
mnemonic (privilege Privilege.enter_user) = "ENTER_USER"
mnemonic (privilege Privilege.getmode) = "GETMODE"

module _ (a b : Array) (n : ℕ) (same : SameString a b n) where
  find_mnemonic-same :
      (names : List (Array × Opcode)) → find_mnemonic a names ≡ find_mnemonic b names
  unfolding find_mnemonic
  find_mnemonic-same [] = refl
  find_mnemonic-same ((name, op) ∷ rest) =
      rw (strcmp-same_left a b n same name, find_mnemonic-same rest) refl

-- Whether the search for a name ends at its code.
abbrev is_found : ℕ → Outcome ℤ → Bool
is_found n (Outcome.ok (pos m)) = m == n
is_found n (Outcome.ok (negsuc m)) = false
is_found n Outcome.fault = false

is_found-pos : (n : ℕ) (m : Outcome ℤ) → is_found n m ≡ true → m ≡ ok (pos n)
is_found-pos n (Outcome.ok (pos m)) e = ap (λ k. ok (pos k)) (ground arith)
is_found-pos n (Outcome.ok (negsuc m)) e = absurd (cc e)
is_found-pos n Outcome.fault e = absurd (cc e)

finds : ℕ → Option Opcode → Bool
finds n none = true
finds n (some op) = is_found n (parse_opcode (literal (mnemonic op)))

all_found : all_below 256 (λ n. finds n (opcode_of n)) ≡ true
unfolding all_below finds opcode_of parse_opcode find_mnemonic mnemonics literal mnemonic code
    strcmp strcmp_loop load
all_found = refl

all_low : List Opcode → Bool
all_low [] = true
all_low (op ∷ ops) = ltb (code op) 256 && all_low ops

select-lt :
    (ops : List Opcode) (n : ℕ) (op : Opcode)
    → all_low ops ≡ true
    → select ops n ≡ some op
    → n < 256
unfolding select all_low
select-lt [] n op low h = absurd (cc h)
select-lt (x ∷ ops) n op low h = ground (arith, select-lt ops n op)

opcodes-low : all_low opcodes ≡ true
unfolding all_low opcodes code
opcodes-low = refl

pub code-lt : (op : Opcode) → code op < 256
unfolding opcode_of
code-lt op = select-lt opcodes (code op) op opcodes-low (opcode_of-code op)

-- A buffer that holds the mnemonic of an opcode, as a string, is parsed to the code of the opcode:
-- every opcode has its name in the table, and no name stands there for another.
pub parse_opcode-mnemonic :
    (op : Opcode) (str : Array) (n : ℕ)
    → SameString str (literal (mnemonic op)) n
    → parse_opcode str ≡ ok (pos (code op))
unfolding parse_opcode finds
parse_opcode-mnemonic op str n same =
    find_mnemonic-same str (literal (mnemonic op)) n same mnemonics
    ∙ is_found-pos (code op) _ (
        rw (opcode_of-code op) at
          (all_below_sound 256 (λ n. finds n (opcode_of n)) all_found (code op) (code-lt op)))
