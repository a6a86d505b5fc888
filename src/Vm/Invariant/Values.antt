-- ===== src/Vm/Invariant/Values.antt =====
-- The ranges of the values of the ALU instructions.
use crisp.Base.{ℕ, ◌^◌, ◌-◌, arith, not, ◌==◌, ◌&&◌}
use crisp.Base.Int.{ℤ, pos, negsuc}
use crisp.Vm.Alu.{word, sll, srl, sra, slt, sltu, mulhu, mulh, div, divu, rem32, remu}
use crisp.Vm.Invariant.{IsWord, Post, ends, faults, Post-if}

pub word-IsWord : (z : ℤ) → IsWord (word z)
word-IsWord (pos n) = omega arith
word-IsWord (negsuc n) = omega arith

pub sll-IsWord : (x n : ℕ) → IsWord (sll x n)
unfolding sll
sll-IsWord x n = omega arith

pub srl-IsWord : (x n : ℕ) → IsWord x → IsWord (srl x n)
unfolding srl
srl-IsWord x n h = grind arith

pub sra-IsWord : (x n : ℕ) → IsWord (sra x n)
unfolding sra
sra-IsWord x n = word-IsWord _

pub slt-IsWord : (a b : ℕ) → IsWord (slt a b)
unfolding slt
slt-IsWord a b = ground arith

pub sltu-IsWord : (a b : ℕ) → IsWord (sltu a b)
unfolding sltu
sltu-IsWord a b = ground arith

pub mulhu-IsWord : (a b : ℕ) → IsWord (mulhu a b)
unfolding mulhu
mulhu-IsWord a b = omega arith

pub mulh-IsWord : (a b : ℕ) → IsWord (mulh a b)
unfolding mulh
mulh-IsWord a b = ground (arith, mulhu-IsWord a b)

pub div-IsWord : (a b : ℕ) → Post IsWord (div a b)
unfolding div
div-IsWord a b =
    Post-if (not (b == 0))
      (λ _. Post-if ((a == 2 ^ 31) && (b == 2 ^ 32 - 1)) (λ _. faults) (λ _. ends (word-IsWord _)))
      (λ _. ends (omega arith))

pub divu-IsWord : (a b : ℕ) → IsWord a → IsWord (divu a b)
unfolding divu
divu-IsWord a b h = grind arith

pub rem32-IsWord : (a b : ℕ) → Post IsWord (rem32 a b)
unfolding rem32
rem32-IsWord a b =
    Post-if (not (b == 0))
      (λ _. Post-if ((a == 2 ^ 31) && (b == 2 ^ 32 - 1)) (λ _. faults) (λ _. ends (word-IsWord _)))
      (λ _. ends (omega arith))

pub remu-IsWord : (a b : ℕ) → IsWord a → IsWord (remu a b)
unfolding remu
remu-IsWord a b h = grind arith
