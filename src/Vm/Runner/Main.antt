-- ===== src/Vm/Runner/Main.antt =====
-- `main` of src/vm/main.c, with what it and its helpers print. Standard output and standard error
-- are two lists of bytes.
use crisp.Base.{
  ℕ, zero, suc, ◌+◌, ◌%◌, leb, not, ◌&&◌, ◌==◌, true, false, if◌then◌else◌, [], ◌++◌, Option, none,
  some, Outcome, ok, ◌>>=◌, u32,
}
use crisp.CString.Literal.{codes}
use crisp.CString.Format.{Text, decimal_long, hex_word, left_decimal}
use crisp.Vm.State.{Vm, vm_init}
use crisp.Vm.Step.{Status, success, error, step}
use crisp.Vm.Runner.{
  Binary, load_binary_file, vm_memory, vm_memory_size, default_load_addr, max_execution_steps,
}

-- `argc`, the strings of `argv`, the address that `sscanf` finds in `argv[2]` behind 0x, and the
-- one that it finds without; and the count that `fread` returns.
pub record Arguments : Type 0 where
  pub argc : ℕ
  pub program_name : Text
  pub filename : Text
  pub address_text : Text
  pub prefixed : Option ℕ
  pub plain : Option ℕ
  pub bytes_read : ℕ

-- What is printed to standard output and to standard error.
pub record Printed : Type 0 where
  pub out : Text
  pub err : Text

-- The exit code, the machine at the end, and what is printed.
pub record Exit : Type 0 where
  pub code : ℕ
  pub vm : Vm
  pub printed : Printed

-- The loop of `print_registers` from register `i` on
unfoldable pub registers_text : (left i : ℕ) → (ℕ → ℕ) → Text
registers_text zero i regs = []
registers_text (suc left) i regs =
    codes "R"
    ++ (left_decimal i
        ++ (codes ": 0x"
            ++ (hex_word (regs i)
                ++ ((if i % 4 == 3 then codes "\n" else codes "  ")
                    ++ registers_text left (i + 1) regs))))

unfoldable pub print_registers : Vm → Text
print_registers vm =
    codes "\nRegister State:\n================\n"
    ++ (registers_text 32 0 vm.regs
        ++ (codes "PC:  0x" ++ (hex_word vm.pc ++ codes "\n================\n")))

unfoldable pub print_usage : Text → Text
print_usage program_name =
    codes "CRISP-32 Virtual Machine\nUsage: "
    ++ (program_name
        ++ (codes " <binary_file> [load_address]\n\nArguments:\n"
            ++ (codes "  binary_file    Path to CRISP-32 binary program\n"
                ++ (codes
                      "  load_address   Memory address to load program (hex, default: 0x1000)\n\n"
                    ++ (codes "Examples:\n  "
                        ++ (program_name
                            ++ (codes " program.bin\n  "
                                ++ (program_name ++ codes " program.bin 0x2000\n"))))))))

-- The messages of `load_binary_file`
unfoldable pub load_message : Arguments → Binary → Vm → ℕ → Printed
load_message args file vm load_addr =
    if not file.opens
    then record {
      out = [];
      err = codes "Error: Cannot open file '" ++ (args.filename ++ codes "'\n");
    }
    else if leb vm.memory_size load_addr
    then record {
      out = [];
      err =
          codes "Error: Load address 0x" ++ (hex_word load_addr ++ codes " exceeds memory size\n");
    }
    else if file.failed
    then record {
      out = [];
      err = codes "Error: Failed to read file '" ++ (args.filename ++ codes "'\n");
    }
    else record {
      out =
          codes "Loaded "
          ++ (decimal_long args.bytes_read
              ++ (codes " bytes from '"
                  ++ (args.filename
                      ++ (codes "' at address 0x" ++ (hex_word load_addr ++ codes "\n")))));
      err = [];
    }

-- `sscanf(argv[2], "0x%lx", &addr) == 1 || sscanf(argv[2], "%lx", &addr) == 1`
unfoldable pub found_address : Option ℕ → Option ℕ → Option ℕ
found_address (some addr) plain = some (u32 addr)
found_address none (some addr) = some (u32 addr)
found_address none none = none

-- The load address, if there is none to be read or it can be read.
unfoldable pub parse_load_addr : Arguments → Option ℕ
parse_load_addr args =
    if args.argc == 3 then found_address args.prefixed args.plain else some default_load_addr

-- A step's error leaves the loop, with the count as it is.
unfoldable pub unless_failed :
    ℕ → (Vm → Outcome (ℕ × Status × Vm)) → Status × Vm → Outcome (ℕ × Status × Vm)
unless_failed step_count next (error, vm) = ok (step_count, error, vm)
unless_failed step_count next (success, vm) = next vm

-- The `while` loop with `step_count`; `left` is `MAX_EXECUTION_STEPS - step_count`.
unfoldable pub count_steps : (left step_count : ℕ) → Vm → Outcome (ℕ × Status × Vm)
count_steps zero step_count vm = ok (step_count, success, vm)
count_steps (suc left) step_count vm = elim vm.running [
  | false ↦ ok (step_count, success, vm)
  | true ↦ step vm >>= unless_failed step_count (count_steps left (step_count + 1))
]

-- What `main` prints behind the loop, after the text `before`.
unfoldable pub report : Text → ℕ × Status × Vm → Exit
report before (step_count, error, vm) = record {
  code = 1;
  vm = vm;
  printed = record {
    out = before ++ print_registers vm;
    err = codes "\nError: VM execution failed at PC=0x" ++ (hex_word vm.pc ++ codes "\n");
  };
}
report before (step_count, success, vm) =
    if vm.running
    then record {
      code = 0;
      vm = vm;
      printed = record {
        out = before ++ print_registers vm;
        err =
            codes "\nWarning: Program did not halt within "
            ++ (decimal_long max_execution_steps ++ codes " steps\n");
      };
    }
    else record {
      code = 0;
      vm = vm;
      printed = record {
        out =
            before
            ++ (codes "\nProgram halted after "
                ++ (decimal_long step_count ++ (codes " steps\n" ++ print_registers vm)));
        err = [];
      };
    }

abbrev pub starting : Text → ℕ → Text
starting loaded load_addr =
    loaded ++ (codes "\nStarting execution at 0x" ++ (hex_word load_addr ++ codes "...\n"))

-- `main` behind the load: the run from `load_addr` on, if the load has succeeded.
unfoldable pub run_loaded : (load_addr : ℕ) → Printed → Status × Vm → Outcome Exit
run_loaded load_addr printed (error, vm) = ok (record { code = 1; vm = vm; printed = printed })
run_loaded load_addr printed (success, vm) = do
  r ← count_steps max_execution_steps 0 (record vm { pc = load_addr; running = true })
  ok (report (starting printed.out load_addr) r)

-- `main` behind the arguments
unfoldable pub load_and_run : Arguments → Binary → Vm → Option ℕ → Outcome Exit
load_and_run args file vm none = ok (record {
  code = 1;
  vm = vm;
  printed = record {
    out = print_usage args.program_name;
    err = codes "Error: Invalid load address '" ++ (args.address_text ++ codes "'\n");
  };
})
load_and_run args file vm (some load_addr) =
    let vm' = vm_init vm vm_memory vm_memory_size in
    run_loaded load_addr (load_message args file vm' load_addr)
      (load_binary_file file vm' load_addr)

unfoldable pub main : Arguments → Binary → Vm → Outcome Exit
main args file vm =
    let rest = load_and_run args file vm (parse_load_addr args) in
    if leb 2 args.argc && leb args.argc 3
    then rest
    else ok (record {
      code = 1;
      vm = vm;
      printed = record { out = print_usage args.program_name; err = [] };
    })
