-- ===== src/Asm/Operands/Range.antt =====
-- The fields of an instruction that is written in assembly are in the range of their types.
use crisp.Base.{ℕ, ◌^◌, ◌<◌, arith, List}
use crisp.Array.{Array}
use crisp.Vm.Instruction.{Instruction}
use crisp.Asm.Encode.{InRange}
use crisp.Asm.Symbols.{AsmState}
use crisp.Asm.Registers.Texts.{Register-lt}
use crisp.Asm.Immediate.Texts.{
  Digits, decimal_digits, hexadecimal_digits, Number, unsigned, plus, minus,
}
use crisp.Asm.Operands.{Form}
use crisp.Asm.Operands.Texts.{
  Distance, to_label, to_number, Operands, three_registers_text, two_registers_immediate_text,
  load_upper_text, shift_immediate_text, branch_two_text, branch_one_text, to_target_text,
  to_register_text, link_register_text, load_store_text, no_operands_text,
}

abbrev IsWord : ℕ → Type 0
IsWord v = v < 2 ^ 32

Digits-lt : {text : Array} {p v : ℕ} → Digits text p v → IsWord v
Digits-lt (decimal_digits d) = omega arith
Digits-lt (hexadecimal_digits h) = omega arith

Number-lt : {text : Array} {v : ℕ} → Number text v → IsWord v
Number-lt (unsigned d) = Digits-lt d
Number-lt (plus sign d) = Digits-lt d
Number-lt (minus sign d) = omega arith

Distance-lt : {s : AsmState} {text : Array} {v : ℕ} → Distance s text v → IsWord v
Distance-lt (to_label l) = omega arith
Distance-lt (to_number missing written) = Number-lt written

in_range :
    (op rs rt rd imm : ℕ)
    → op < 256
    → rs < 32
    → rt < 32
    → rd < 32
    → IsWord imm
    → InRange (record { opcode = op; rs = rs; rt = rt; rd = rd; immediate = imm })
in_range op rs rt rd imm h a b c d = record {
  opcode = omega arith;
  rs = omega arith;
  rt = omega arith;
  rd = omega arith;
  immediate = d;
}

pub Operands-InRange :
    {s : AsmState} {op : ℕ} {form : Form} {texts : List Array} {inst : Instruction}
    → op < 256
    → Operands s op form texts inst
    → InRange inst
Operands-InRange h (three_registers_text a b c) =
    in_range _ _ _ _ _ h (Register-lt b) (Register-lt c) (Register-lt a) (omega arith)
Operands-InRange h (two_registers_immediate_text a b c) =
    in_range _ _ _ _ _ h (Register-lt b) (Register-lt a) (omega arith) (Number-lt c)
Operands-InRange h (load_upper_text a b) =
    in_range _ _ _ _ _ h (omega arith) (Register-lt a) (omega arith) (Number-lt b)
Operands-InRange h (shift_immediate_text a b c) =
    in_range _ _ _ _ _ h (omega arith) (Register-lt b) (Register-lt a) (Number-lt c)
Operands-InRange h (branch_two_text a b t) =
    in_range _ _ _ _ _ h (Register-lt a) (Register-lt b) (omega arith) (Distance-lt t)
Operands-InRange h (branch_one_text a t) =
    in_range _ _ _ _ _ h (Register-lt a) (omega arith) (omega arith) (Distance-lt t)
Operands-InRange h (to_target_text t) =
    in_range _ _ _ _ _ h (omega arith) (omega arith) (omega arith) (omega arith)
Operands-InRange h (to_register_text a) =
    in_range _ _ _ _ _ h (Register-lt a) (omega arith) (omega arith) (omega arith)
Operands-InRange h (link_register_text a b) =
    in_range _ _ _ _ _ h (Register-lt b) (omega arith) (Register-lt a) (omega arith)
Operands-InRange h (load_store_text a b c) =
    in_range _ _ _ _ _ h (Register-lt b) (Register-lt a) (omega arith) (Number-lt c)
Operands-InRange h no_operands_text =
    in_range _ _ _ _ _ h (omega arith) (omega arith) (omega arith) (omega arith)
