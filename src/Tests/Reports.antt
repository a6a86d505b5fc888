-- ===== src/Tests/Reports.antt =====
-- What the runner of src/vm/main.c prints.
use crisp.Base.{◌^◌, ◌<◌, arith, ◌≡◌, ◌++◌, [], some, ok, refl, true}
use crisp.CString.Literal.{codes}
use crisp.CString.Format.{decimal_long, digits_loop, hex_word, zeros, left_decimal}
use crisp.Vm.State.{clear}
use crisp.Array.{load, store}
use crisp.CString.{memcpy, memcpy_loop}
use crisp.Vm.Memory.{read_word, read_word_on}
use crisp.Vm.Interrupts.{check_interrupts, raise_interrupt}
use crisp.Vm.Mmu.{translate_address}
use crisp.Vm.Opcode.{opcode_of, select, opcodes, code}
use crisp.Vm.Step.{success, step, cycle, fetch, decode, perform}
use crisp.Vm.Execute.{execute, exec_selected}
use crisp.Vm.Runner.{load_binary_file, vm_memory, vm_memory_size}
use crisp.Vm.State.{vm_init}
use crisp.Vm.Runner.Main.{
  Arguments, Exit, main, report, load_message, parse_load_addr, found_address, load_and_run,
  run_loaded, count_steps, unless_failed, print_registers, registers_text,
}
use crisp.Vm.Runner.Printed.{Reports}
use crisp.Vm.Runner.Report.{main-Reports}
use crisp.Tests.Guests.{kernel, addi_program}
use crisp.Tests.Runner.{filler, filler-Reads, stopped_at_once}

-- crisp32 a.bin 0x1000
abbrev args : Arguments
args = record {
  argc = 3;
  program_name = codes "crisp32";
  filename = codes "a.bin";
  address_text = codes "0x1000";
  prefixed = some 0x1000;
  plain = some 0;
  bytes_read = 61440;
}

args-parsed : parse_load_addr args ≡ some 0x1000
unfolding parse_load_addr found_address
args-parsed = refl

abbrev exit : Exit
exit = record {
  code = 0;
  vm = stopped_at_once;
  printed = record {
    out =
        codes "Loaded 61440 bytes from 'a.bin' at address 0x00001000\n"
        ++ (codes "\nStarting execution at 0x00001000...\n"
            ++ (codes "\nProgram halted after 1 steps\n"
                ++ (codes "\nRegister State:\n================\n"
                    ++ (codes "R0 : 0x00000000  R1 : 0x00000000  R2 : 0x00000000  R3 : 0x00000000\n"
                        ++ (codes
                              "R4 : 0x00000000  R5 : 0x00000000  R6 : 0x00000000  R7 : 0x00000000\n"
                            ++ (codes
                                  "R8 : 0x00000000  R9 : 0x00000000  R10: 0x00000000  R11: 0x00000000\n"
                                ++ (codes
                                      "R12: 0x00000000  R13: 0x00000000  R14: 0x00000000  R15: 0x00000000\n"
                                    ++ (codes
                                          "R16: 0x00000000  R17: 0x00000000  R18: 0x00000000  R19: 0x00000000\n"
                                        ++ (codes
                                              "R20: 0x00000000  R21: 0x00000000  R22: 0x00000000  R23: 0x00000000\n"
                                            ++ (codes
                                                  "R24: 0x00000000  R25: 0x00000000  R26: 0x00000000  R27: 0x00000000\n"
                                                ++ (codes
                                                      "R28: 0x00000000  R29: 0x00000000  R30: 0x00000000  R31: 0x00000000\n"
                                                    ++ (codes
                                                        "PC:  0x00001008\n================\n"))))))))))));
    err = [];
  };
}

filler-loads :
    (load_binary_file filler (vm_init (kernel addi_program) vm_memory vm_memory_size) 0x1000).0
    ≡ success
unfolding load_binary_file vm_init
filler-loads = refl

main_text : main args filler (kernel addi_program) ≡ ok exit
unfolding main load_and_run parse_load_addr found_address run_loaded load_message load_binary_file
    count_steps unless_failed report print_registers registers_text hex_word zeros left_decimal
    decimal_long digits_loop step check_interrupts cycle translate_address fetch decode load
    read_word read_word_on memcpy memcpy_loop store perform execute opcode_of select opcodes code
    exec_selected vm_init clear raise_interrupt
main_text = refl

few_bytes : args.bytes_read < 2 ^ 64
few_bytes = omega arith

main-Reports_example :
    Reports args 0x1000
      (record (load_binary_file filler
        (vm_init (kernel addi_program) vm_memory vm_memory_size)
        0x1000).1 { pc = 0x1000; running = true })
      exit
main-Reports_example =
    main-Reports args filler 0x1000 refl args-parsed (kernel addi_program) filler-Reads few_bytes
      exit filler-loads main_text
