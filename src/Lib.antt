-- ===== src/Lib.antt =====
-- CRISP-32: the virtual machine of a 32-bit instruction set, its string routines, its assembler
-- and the tools around them, and what is proved of them.
--
-- The program's parts and where they are modelled:
-- * src/common/c32_string.c, the memory and string routines: CString. A pointer is an array (Array)
--   and an offset; `memcpy`, `strlen` and so on are the c32_ functions, and a `_loop` is the loop
--   of its function with the rounds that are left.
-- * src/vm/c32_vm.c, the machine: Vm. Vm/Memory holds c32_read_word and the other accessors, on
--   hosts of both byte orders, over `memcpy`. Vm/State is c32_vm_t of include/c32_vm.h with
--   c32_vm_init and c32_vm_reset. Vm/Interrupts is c32_raise_interrupt, c32_set_interrupt_handler
--   and check_interrupts, cut into its parts. Vm/Mmu is translate_address. Vm/Opcode is
--   include/c32_opcodes.h, a data type for each group. Vm/Alu is what the arithmetic cases compute.
--   Vm/Execute is the switch of c32_vm_step, a child for the cases of some groups. Vm/Step is
--   c32_vm_step, and Vm/Run is c32_vm_run.
-- * src/asm, the assembler: Asm/Encode is c32_encode_instruction and Asm/Registers is
--   c32_parse_register of src/asm/c32_encode.c; Asm/Symbols is src/asm/c32_symbols.c, with the
--   symbol table of include/c32_asm.h. src/asm/c32_parser.c is Asm/Tokens (skip_whitespace and
--   tokenize), Asm/Immediate (parse_immediate), Asm/Mnemonics (parse_opcode), and, for
--   c32_asm_assemble_line, Asm/Operands (the branches on the opcode) and Asm/Line (the rest);
--   Asm/Tokens/Spells says what the words of a line are, Asm/Registers/Texts, Asm/Immediate/Texts
--   and Asm/Operands/Texts how a register, a number and the operands of each form are written, and
--   Asm/Line/Texts where an instruction starts, and Asm/Operands/Formats which operands
--   docs/crisp32-spec.md gives to it;
--   Asm/Line/Advance says what a line does to the addresses by its text alone. Asm/Driver is
--   c32_asm_assemble_file and main of src/asm/c32asm.c. A pass hands every line to
--   c32_asm_assemble_line, which finds a label, cuts the rest into tokens, and in pass 2 encodes
--   the instruction into the output.
-- * src/vm/main.c, the runner: Vm/Runner is load_binary_file and the bounded loop of main,
--   Vm/Runner/Main is main with its arguments and what it prints, Vm/Runner/Printed says what that
--   is, with CString/Numerals on numbers as text, and Vm/Runner/Assembled joins the
--   runner with the assembler. CString/Format holds the conversions of printf that the tools use.
-- * src/tools/bin2h.c, the build tool: Tools/Bin2h is get_basename and filename_to_identifier,
--   Tools/Bin2h/Text the lines of the array, and Tools/Bin2h/Convert its main.
--   Tools/Bin2h/Scan reads an array of C back.
-- * Vm/Safety says when a step is free of undefined behaviour.
-- * Base holds what all share: tests on numbers, `Outcome`, the casts `u8`, `u16` and `u32`, laws of
--   the bit operations, and signed numbers.
--
-- A step checks for interrupts, which may dispatch a handler through the vector table in the guest
-- memory; it translates the PC, fetches eight bytes and executes them. Loads and stores go through
-- the same translation. Functions that change the machine take it and give it back.
--
-- Conventions. `fault` stands for undefined behaviour: an access outside an array, a register field
-- of 32 or more, and INT_MIN / -1. Signed arithmetic that overflows, conversions to signed types and
-- right shifts of negative numbers are as the usual compilers have them: two's complement, wrapping,
-- and rounding down. Flags that only hold 0 and 1 are Booleans. Values of unsigned types are natural
-- numbers, and a wrap-around is written out. The local buffers of the assembler, which C leaves
-- uninitialised, start as zeros. Vm/Invariant says what a well-formed state is: every
-- field holds a value of its C type.
--
-- Bounds and fuel. The loops with a fixed number of rounds recur on it: 32 registers, 255 interrupt
-- numbers, and the length of a copy. strlen, strcpy and strcmp take one round for each byte of the
-- (first) array and one more, after which they would have left the array; the loops over a line and
-- a token do the same, and so do those of bin2h. c32_vm_run may
-- run for ever, so `run_loop` takes a number of rounds and may end `unfinished`; Vm/Run/Bigstep
-- describes runs without a bound.
--
-- Not modelled: the messages of the assembler and of bin2h on the terminal and the arguments of the
-- assembler. fopen, fgets, fread, fwrite and sscanf are parameters: Asm/Driver is given the contents
-- of the line buffer after each fgets, and Vm/Runner what fread leaves in the memory. The test
-- harness is not modelled.
pub mod Array
pub mod Asm
pub mod Base
pub mod CString
pub mod Tests
pub mod Tools
pub mod Vm
