-- ===== src/Vm/Runner/Dump.antt =====
-- The table of registers that `print_registers` of src/vm/main.c prints.
use crisp.Base.{
  ℕ, zero, suc, ◌+◌, ◌%◌, ◌^◌, ◌<◌, ◌≡◌, ◌==◌, ltb, refl, arith, if◌then◌else◌, [], ◌++◌,
}
use crisp.CString.Literal.{codes}
use crisp.CString.Format.{Text, left_decimal}
use crisp.CString.Numerals.{Numeral, decimal_long-Numeral, hex_word-Numeral}
use crisp.Vm.State.{Vm}
use crisp.Vm.Invariant.{Fits}
use crisp.Vm.Runner.Main.{registers_text, print_registers}

-- A blank behind a number of one digit, and four registers in a row.
abbrev gap : ℕ → Text
gap i = if ltb i 10 then codes " " else []

abbrev behind : ℕ → Text
behind i = if i % 4 == 3 then codes "\n" else codes "  "

-- The registers from `i` on, each with its number and its value in hexadecimal.
pub data Cells (regs : ℕ → ℕ) : ℕ → Text → Type 0 where
  no_cell : Cells regs 32 []
  next_cell :
      {i : ℕ} {name value more : Text}
      → Numeral 10 name i
      → Numeral 16 value (regs i)
      → Cells regs (i + 1) more
      → Cells regs i
          (codes "R" ++ ((name ++ gap i) ++ (codes ": 0x" ++ (value ++ (behind i ++ more)))))

-- The registers, and the PC.
pub data Dump (vm : Vm) : Text → Type 0 where
  dump :
      {cells pc : Text}
      → Cells vm.regs 0 cells
      → Numeral 16 pc vm.pc
      → Dump vm (
          codes "\nRegister State:\n================\n"
          ++ (cells ++ (codes "PC:  0x" ++ (pc ++ codes "\n================\n"))))

registers_text-Cells :
    (regs : ℕ → ℕ)
    → ((k : ℕ) → k < 32 → regs k < 2 ^ 32)
    → (left i : ℕ) → i + left ≡ 32
    → Cells regs i (registers_text left i regs)
unfolding registers_text left_decimal
registers_text-Cells regs words zero i end = let at : i ≡ 32 = omega arith in rw at no_cell
registers_text-Cells regs words (suc left) i end =
    next_cell (decimal_long-Numeral i (omega arith))
      (hex_word-Numeral (regs i) (words i (omega arith)))
      (registers_text-Cells regs words left (i + 1) (omega arith))

pub print_registers-Dump : (vm : Vm) → Fits vm → Dump vm (print_registers vm)
unfolding print_registers
print_registers-Dump vm f =
    dump (registers_text-Cells vm.regs f.regs 32 0 refl) (hex_word-Numeral vm.pc f.pc)
