-- ===== src/Vm/Opcode/Codes.antt =====
-- The opcodes of include/c32_opcodes.h and the bytes that select them.
use crisp.Base.{ℕ, ◌≡◌, refl, some, List, [], ◌∷◌, arith}
use crisp.Vm.Opcode.{
  Opcode, special, arithmetic, logical, shift, comparison, memory, branch, jump, system, interrupt,
  privilege, Special, Arithmetic, Logical, Shift, Comparison, Memory, Branch, Jump, System,
  Interrupt, Privilege, code, opcodes, select, opcode_of,
}

-- The switch finds every opcode by its code.
pub opcode_of-code : (op : Opcode) → opcode_of (code op) ≡ some op
unfolding opcode_of
opcode_of-code (special Special.nop) = refl
opcode_of-code (arithmetic Arithmetic.add) = refl
opcode_of-code (arithmetic Arithmetic.addu) = refl
opcode_of-code (arithmetic Arithmetic.sub) = refl
opcode_of-code (arithmetic Arithmetic.subu) = refl
opcode_of-code (arithmetic Arithmetic.addi) = refl
opcode_of-code (arithmetic Arithmetic.addiu) = refl
opcode_of-code (arithmetic Arithmetic.mul) = refl
opcode_of-code (arithmetic Arithmetic.mulh) = refl
opcode_of-code (arithmetic Arithmetic.mulhu) = refl
opcode_of-code (arithmetic Arithmetic.div) = refl
opcode_of-code (arithmetic Arithmetic.divu) = refl
opcode_of-code (arithmetic Arithmetic.rem) = refl
opcode_of-code (arithmetic Arithmetic.remu) = refl
opcode_of-code (logical Logical.and) = refl
opcode_of-code (logical Logical.or) = refl
opcode_of-code (logical Logical.xor) = refl
opcode_of-code (logical Logical.nor) = refl
opcode_of-code (logical Logical.andi) = refl
opcode_of-code (logical Logical.ori) = refl
opcode_of-code (logical Logical.xori) = refl
opcode_of-code (logical Logical.lui) = refl
opcode_of-code (shift Shift.sll) = refl
opcode_of-code (shift Shift.srl) = refl
opcode_of-code (shift Shift.sra) = refl
opcode_of-code (shift Shift.sllv) = refl
opcode_of-code (shift Shift.srlv) = refl
opcode_of-code (shift Shift.srav) = refl
opcode_of-code (comparison Comparison.slt) = refl
opcode_of-code (comparison Comparison.sltu) = refl
opcode_of-code (comparison Comparison.slti) = refl
opcode_of-code (comparison Comparison.sltiu) = refl
opcode_of-code (memory Memory.lw) = refl
opcode_of-code (memory Memory.lh) = refl
opcode_of-code (memory Memory.lhu) = refl
opcode_of-code (memory Memory.lb) = refl
opcode_of-code (memory Memory.lbu) = refl
opcode_of-code (memory Memory.sw) = refl
opcode_of-code (memory Memory.sh) = refl
opcode_of-code (memory Memory.sb) = refl
opcode_of-code (branch Branch.beq) = refl
opcode_of-code (branch Branch.bne) = refl
opcode_of-code (branch Branch.blez) = refl
opcode_of-code (branch Branch.bgtz) = refl
opcode_of-code (branch Branch.bltz) = refl
opcode_of-code (branch Branch.bgez) = refl
opcode_of-code (jump Jump.j) = refl
opcode_of-code (jump Jump.jal) = refl
opcode_of-code (jump Jump.jr) = refl
opcode_of-code (jump Jump.jalr) = refl
opcode_of-code (system System.syscall) = refl
opcode_of-code (system System.break) = refl
opcode_of-code (interrupt Interrupt.ei) = refl
opcode_of-code (interrupt Interrupt.di) = refl
opcode_of-code (interrupt Interrupt.iret) = refl
opcode_of-code (interrupt Interrupt.raise) = refl
opcode_of-code (interrupt Interrupt.getpc) = refl
opcode_of-code (privilege Privilege.enable_paging) = refl
opcode_of-code (privilege Privilege.disable_paging) = refl
opcode_of-code (privilege Privilege.set_ptbr) = refl
opcode_of-code (privilege Privilege.enter_user) = refl
opcode_of-code (privilege Privilege.getmode) = refl

code-select : (ops : List Opcode) (n : ℕ) (op : Opcode) → select ops n ≡ some op → code op ≡ n
unfolding select
code-select [] n op h = ground arith
code-select (x ∷ ops) n op h = ground (arith, code-select ops n op)

-- A case that the switch selects for a byte is the case of the opcode with that code.
pub code-opcode_of : (n : ℕ) (op : Opcode) → opcode_of n ≡ some op → code op ≡ n
unfolding opcode_of
code-opcode_of n op h = code-select opcodes n op h
