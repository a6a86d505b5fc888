-- ===== src/Vm/Instruction.antt =====
-- Decoded instructions, `c32_instruction_t` of include/c32_asm.h.
use crisp.Base.{ℕ}

-- Four bytes and a word, also the locals of `c32_vm_step`.
pub record Instruction : Type 0 where
  pub opcode : ℕ
  pub rs : ℕ
  pub rt : ℕ
  pub rd : ℕ
  pub immediate : ℕ
