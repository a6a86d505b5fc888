-- ===== src/Vm/Opcode.antt =====
-- The opcodes of include/c32_opcodes.h, a type for each of its groups.
pub mod Codes
use crisp.Base.{ℕ, Option, none, some, List, [], ◌∷◌, ◌==◌, if◌then◌else◌}

pub data Special : Type 0 where
  nop : Special

pub data Arithmetic : Type 0 where
  add addu sub subu addi addiu mul mulh mulhu div divu rem remu : Arithmetic

pub data Logical : Type 0 where
  and or xor nor andi ori xori lui : Logical

pub data Shift : Type 0 where
  sll srl sra sllv srlv srav : Shift

pub data Comparison : Type 0 where
  slt sltu slti sltiu : Comparison

pub data Memory : Type 0 where
  lw lh lhu lb lbu sw sh sb : Memory

pub data Branch : Type 0 where
  beq bne blez bgtz bltz bgez : Branch

pub data Jump : Type 0 where
  j jal jr jalr : Jump

pub data System : Type 0 where
  syscall break : System

pub data Interrupt : Type 0 where
  ei di iret raise getpc : Interrupt

pub data Privilege : Type 0 where
  enable_paging disable_paging set_ptbr enter_user getmode : Privilege

pub data Opcode : Type 0 where
  special : Special → Opcode
  arithmetic : Arithmetic → Opcode
  logical : Logical → Opcode
  shift : Shift → Opcode
  comparison : Comparison → Opcode
  memory : Memory → Opcode
  branch : Branch → Opcode
  jump : Jump → Opcode
  system : System → Opcode
  interrupt : Interrupt → Opcode
  privilege : Privilege → Opcode

-- The value of each OP_ macro.
unfoldable pub code : Opcode → ℕ
code (special Special.nop) = 0x00
code (arithmetic Arithmetic.add) = 0x01
code (arithmetic Arithmetic.addu) = 0x02
code (arithmetic Arithmetic.sub) = 0x03
code (arithmetic Arithmetic.subu) = 0x04
code (arithmetic Arithmetic.addi) = 0x05
code (arithmetic Arithmetic.addiu) = 0x06
code (arithmetic Arithmetic.mul) = 0x40
code (arithmetic Arithmetic.mulh) = 0x41
code (arithmetic Arithmetic.mulhu) = 0x42
code (arithmetic Arithmetic.div) = 0x43
code (arithmetic Arithmetic.divu) = 0x44
code (arithmetic Arithmetic.rem) = 0x45
code (arithmetic Arithmetic.remu) = 0x46
code (logical Logical.and) = 0x10
code (logical Logical.or) = 0x11
code (logical Logical.xor) = 0x12
code (logical Logical.nor) = 0x13
code (logical Logical.andi) = 0x14
code (logical Logical.ori) = 0x15
code (logical Logical.xori) = 0x16
code (logical Logical.lui) = 0x17
code (shift Shift.sll) = 0x20
code (shift Shift.srl) = 0x21
code (shift Shift.sra) = 0x22
code (shift Shift.sllv) = 0x23
code (shift Shift.srlv) = 0x24
code (shift Shift.srav) = 0x25
code (comparison Comparison.slt) = 0x30
code (comparison Comparison.sltu) = 0x31
code (comparison Comparison.slti) = 0x32
code (comparison Comparison.sltiu) = 0x33
code (memory Memory.lw) = 0x50
code (memory Memory.lh) = 0x51
code (memory Memory.lhu) = 0x52
code (memory Memory.lb) = 0x53
code (memory Memory.lbu) = 0x54
code (memory Memory.sw) = 0x58
code (memory Memory.sh) = 0x59
code (memory Memory.sb) = 0x5A
code (branch Branch.beq) = 0x60
code (branch Branch.bne) = 0x61
code (branch Branch.blez) = 0x62
code (branch Branch.bgtz) = 0x63
code (branch Branch.bltz) = 0x64
code (branch Branch.bgez) = 0x65
code (jump Jump.j) = 0x70
code (jump Jump.jal) = 0x71
code (jump Jump.jr) = 0x72
code (jump Jump.jalr) = 0x73
code (system System.syscall) = 0xF0
code (system System.break) = 0xF1
code (interrupt Interrupt.ei) = 0xF2
code (interrupt Interrupt.di) = 0xF3
code (interrupt Interrupt.iret) = 0xF4
code (interrupt Interrupt.raise) = 0xF5
code (interrupt Interrupt.getpc) = 0xF6
code (privilege Privilege.enable_paging) = 0xF7
code (privilege Privilege.disable_paging) = 0xF8
code (privilege Privilege.set_ptbr) = 0xF9
code (privilege Privilege.enter_user) = 0xFB
code (privilege Privilege.getmode) = 0xFC

-- Every opcode, in the order of the header's groups.
unfoldable pub opcodes : List Opcode
opcodes =
    special Special.nop
    ∷ arithmetic Arithmetic.add
    ∷ arithmetic Arithmetic.addu
    ∷ arithmetic Arithmetic.sub
    ∷ arithmetic Arithmetic.subu
    ∷ arithmetic Arithmetic.addi
    ∷ arithmetic Arithmetic.addiu
    ∷ arithmetic Arithmetic.mul
    ∷ arithmetic Arithmetic.mulh
    ∷ arithmetic Arithmetic.mulhu
    ∷ arithmetic Arithmetic.div
    ∷ arithmetic Arithmetic.divu
    ∷ arithmetic Arithmetic.rem
    ∷ arithmetic Arithmetic.remu
    ∷ logical Logical.and
    ∷ logical Logical.or
    ∷ logical Logical.xor
    ∷ logical Logical.nor
    ∷ logical Logical.andi
    ∷ logical Logical.ori
    ∷ logical Logical.xori
    ∷ logical Logical.lui
    ∷ shift Shift.sll
    ∷ shift Shift.srl
    ∷ shift Shift.sra
    ∷ shift Shift.sllv
    ∷ shift Shift.srlv
    ∷ shift Shift.srav
    ∷ comparison Comparison.slt
    ∷ comparison Comparison.sltu
    ∷ comparison Comparison.slti
    ∷ comparison Comparison.sltiu
    ∷ memory Memory.lw
    ∷ memory Memory.lh
    ∷ memory Memory.lhu
    ∷ memory Memory.lb
    ∷ memory Memory.lbu
    ∷ memory Memory.sw
    ∷ memory Memory.sh
    ∷ memory Memory.sb
    ∷ branch Branch.beq
    ∷ branch Branch.bne
    ∷ branch Branch.blez
    ∷ branch Branch.bgtz
    ∷ branch Branch.bltz
    ∷ branch Branch.bgez
    ∷ jump Jump.j
    ∷ jump Jump.jal
    ∷ jump Jump.jr
    ∷ jump Jump.jalr
    ∷ system System.syscall
    ∷ system System.break
    ∷ interrupt Interrupt.ei
    ∷ interrupt Interrupt.di
    ∷ interrupt Interrupt.iret
    ∷ interrupt Interrupt.raise
    ∷ interrupt Interrupt.getpc
    ∷ privilege Privilege.enable_paging
    ∷ privilege Privilege.disable_paging
    ∷ privilege Privilege.set_ptbr
    ∷ privilege Privilege.enter_user
    ∷ privilege Privilege.getmode
    ∷ []

-- The `case` of `switch (opcode)` that a byte selects; `none` is its `default`.
unfoldable pub select : List Opcode → ℕ → Option Opcode
select [] n = none
select (op ∷ ops) n = if code op == n then some op else select ops n

unfoldable pub opcode_of : ℕ → Option Opcode
unfolding select opcodes code
opcode_of n = select opcodes n
