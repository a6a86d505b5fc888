-- ===== src/Asm/Operands/Formats.antt =====
-- The operands that docs/crisp32-spec.md gives to each instruction, beside the chain of tests on the
-- opcode in src/asm/c32_parser.c.
use crisp.Base.{◌≡◌, Option, none, some}
use crisp.Vm.Opcode.{
  Opcode, special, arithmetic, logical, shift, comparison, memory, branch, jump, system, interrupt,
  privilege, Special, Arithmetic, Logical, Shift, Comparison, Memory, Branch, Jump, System,
  Interrupt, Privilege, code,
}
use crisp.Asm.Operands.{
  Form, three_registers, two_registers_immediate, load_upper, shift_immediate, branch_two,
  branch_one, to_target, to_register, link_register, load_store, no_operands, form_of,
}

-- The form of an instruction. Loads and stores are written as in test/README.md, `LW rt, rs,
-- offset`. There is none for the instructions whose operands the assembler takes differently from
-- the specification: SLLV, SRLV and SRAV, whose sources it takes in the other order, and RAISE,
-- GETPC, SET_PTBR and GETMODE, whose operands it ignores.
unfoldable pub format : Opcode → Option Form
format (arithmetic Arithmetic.add) = some three_registers
format (arithmetic Arithmetic.addu) = some three_registers
format (arithmetic Arithmetic.sub) = some three_registers
format (arithmetic Arithmetic.subu) = some three_registers
format (arithmetic Arithmetic.addi) = some two_registers_immediate
format (arithmetic Arithmetic.addiu) = some two_registers_immediate
format (arithmetic Arithmetic.mul) = some three_registers
format (arithmetic Arithmetic.mulh) = some three_registers
format (arithmetic Arithmetic.mulhu) = some three_registers
format (arithmetic Arithmetic.div) = some three_registers
format (arithmetic Arithmetic.divu) = some three_registers
format (arithmetic Arithmetic.rem) = some three_registers
format (arithmetic Arithmetic.remu) = some three_registers
format (logical Logical.and) = some three_registers
format (logical Logical.or) = some three_registers
format (logical Logical.xor) = some three_registers
format (logical Logical.nor) = some three_registers
format (logical Logical.andi) = some two_registers_immediate
format (logical Logical.ori) = some two_registers_immediate
format (logical Logical.xori) = some two_registers_immediate
format (logical Logical.lui) = some load_upper
format (shift Shift.sll) = some shift_immediate
format (shift Shift.srl) = some shift_immediate
format (shift Shift.sra) = some shift_immediate
format (shift Shift.sllv) = none
format (shift Shift.srlv) = none
format (shift Shift.srav) = none
format (comparison Comparison.slt) = some three_registers
format (comparison Comparison.sltu) = some three_registers
format (comparison Comparison.slti) = some two_registers_immediate
format (comparison Comparison.sltiu) = some two_registers_immediate
format (memory Memory.lw) = some load_store
format (memory Memory.lh) = some load_store
format (memory Memory.lhu) = some load_store
format (memory Memory.lb) = some load_store
format (memory Memory.lbu) = some load_store
format (memory Memory.sw) = some load_store
format (memory Memory.sh) = some load_store
format (memory Memory.sb) = some load_store
format (branch Branch.beq) = some branch_two
format (branch Branch.bne) = some branch_two
format (branch Branch.blez) = some branch_one
format (branch Branch.bgtz) = some branch_one
format (branch Branch.bltz) = some branch_one
format (branch Branch.bgez) = some branch_one
format (jump Jump.j) = some to_target
format (jump Jump.jal) = some to_target
format (jump Jump.jr) = some to_register
format (jump Jump.jalr) = some link_register
format (special Special.nop) = some no_operands
format (system System.syscall) = some no_operands
format (system System.break) = some no_operands
format (interrupt Interrupt.ei) = some no_operands
format (interrupt Interrupt.di) = some no_operands
format (interrupt Interrupt.iret) = some no_operands
format (interrupt Interrupt.raise) = none
format (interrupt Interrupt.getpc) = none
format (privilege Privilege.enable_paging) = some no_operands
format (privilege Privilege.disable_paging) = some no_operands
format (privilege Privilege.set_ptbr) = none
format (privilege Privilege.enter_user) = some no_operands
format (privilege Privilege.getmode) = none

some-injective : {f g : Form} → some f ≡ some g → f ≡ g
some-injective e = cc

-- The assembler takes an instruction with a form by the branch for it.
pub form_of-format : (op : Opcode) {form : Form} → format op ≡ some form → form_of (code op) ≡ form
unfolding format form_of code
form_of-format (arithmetic Arithmetic.add) e = some-injective e
form_of-format (arithmetic Arithmetic.addu) e = some-injective e
form_of-format (arithmetic Arithmetic.sub) e = some-injective e
form_of-format (arithmetic Arithmetic.subu) e = some-injective e
form_of-format (arithmetic Arithmetic.addi) e = some-injective e
form_of-format (arithmetic Arithmetic.addiu) e = some-injective e
form_of-format (arithmetic Arithmetic.mul) e = some-injective e
form_of-format (arithmetic Arithmetic.mulh) e = some-injective e
form_of-format (arithmetic Arithmetic.mulhu) e = some-injective e
form_of-format (arithmetic Arithmetic.div) e = some-injective e
form_of-format (arithmetic Arithmetic.divu) e = some-injective e
form_of-format (arithmetic Arithmetic.rem) e = some-injective e
form_of-format (arithmetic Arithmetic.remu) e = some-injective e
form_of-format (logical Logical.and) e = some-injective e
form_of-format (logical Logical.or) e = some-injective e
form_of-format (logical Logical.xor) e = some-injective e
form_of-format (logical Logical.nor) e = some-injective e
form_of-format (logical Logical.andi) e = some-injective e
form_of-format (logical Logical.ori) e = some-injective e
form_of-format (logical Logical.xori) e = some-injective e
form_of-format (logical Logical.lui) e = some-injective e
form_of-format (shift Shift.sll) e = some-injective e
form_of-format (shift Shift.srl) e = some-injective e
form_of-format (shift Shift.sra) e = some-injective e
form_of-format (shift Shift.sllv) e = absurd (cc e)
form_of-format (shift Shift.srlv) e = absurd (cc e)
form_of-format (shift Shift.srav) e = absurd (cc e)
form_of-format (comparison Comparison.slt) e = some-injective e
form_of-format (comparison Comparison.sltu) e = some-injective e
form_of-format (comparison Comparison.slti) e = some-injective e
form_of-format (comparison Comparison.sltiu) e = some-injective e
form_of-format (memory Memory.lw) e = some-injective e
form_of-format (memory Memory.lh) e = some-injective e
form_of-format (memory Memory.lhu) e = some-injective e
form_of-format (memory Memory.lb) e = some-injective e
form_of-format (memory Memory.lbu) e = some-injective e
form_of-format (memory Memory.sw) e = some-injective e
form_of-format (memory Memory.sh) e = some-injective e
form_of-format (memory Memory.sb) e = some-injective e
form_of-format (branch Branch.beq) e = some-injective e
form_of-format (branch Branch.bne) e = some-injective e
form_of-format (branch Branch.blez) e = some-injective e
form_of-format (branch Branch.bgtz) e = some-injective e
form_of-format (branch Branch.bltz) e = some-injective e
form_of-format (branch Branch.bgez) e = some-injective e
form_of-format (jump Jump.j) e = some-injective e
form_of-format (jump Jump.jal) e = some-injective e
form_of-format (jump Jump.jr) e = some-injective e
form_of-format (jump Jump.jalr) e = some-injective e
form_of-format (special Special.nop) e = some-injective e
form_of-format (system System.syscall) e = some-injective e
form_of-format (system System.break) e = some-injective e
form_of-format (interrupt Interrupt.ei) e = some-injective e
form_of-format (interrupt Interrupt.di) e = some-injective e
form_of-format (interrupt Interrupt.iret) e = some-injective e
form_of-format (interrupt Interrupt.raise) e = absurd (cc e)
form_of-format (interrupt Interrupt.getpc) e = absurd (cc e)
form_of-format (privilege Privilege.enable_paging) e = some-injective e
form_of-format (privilege Privilege.disable_paging) e = some-injective e
form_of-format (privilege Privilege.set_ptbr) e = absurd (cc e)
form_of-format (privilege Privilege.enter_user) e = some-injective e
form_of-format (privilege Privilege.getmode) e = absurd (cc e)
