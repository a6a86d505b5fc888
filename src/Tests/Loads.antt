-- ===== src/Tests/Loads.antt =====
-- Loads and stores of the small machines.
use crisp.Base.{◌≡◌, refl, arith, ok, false, true}
use crisp.Array.{update, load, store}
use crisp.CString.{memcpy, memcpy_loop}
use crisp.Vm.Memory.{read_word, read_word_on}
use crisp.Vm.Memory.Laws.{word_at, with_word}
use crisp.Vm.Mmu.{translate_address, apply_entry}
use crisp.Vm.Instruction.{Instruction}
use crisp.Vm.Opcode.{Memory}
use crisp.Vm.Execute.{exec_memory}
use crisp.Vm.Execute.Memory.Words.{exec_memory-sw, exec_memory-lw}
use crisp.Tests.Guests.{buffer, kernel, user, one_page, one_page-AreBytes, kernel-Fits, user-Fits}

-- `sw R29, 8(R0)`
abbrev store_stack : Instruction
store_stack = record { opcode = 0x58; rs = 0; rt = 29; rd = 0; immediate = 8 }

store_translated : translate_address (kernel one_page) 8 true false ≡ ok (8, kernel one_page)
unfolding translate_address
store_translated = refl

exec_memory-sw_example :
    exec_memory Memory.sw store_stack (kernel one_page)
    ≡ ok (record (kernel one_page) { memory = buffer (with_word one_page 8 512) })
exec_memory-sw_example =
    exec_memory-sw store_stack (kernel one_page) (kernel-Fits one_page one_page-AreBytes)
      (omega arith) (omega arith) 8 store_translated (omega arith)

-- `lw R7, 256(R0)`, in user mode: it reads the page table entry.
abbrev load_entry : Instruction
load_entry = record { opcode = 0x50; rs = 0; rt = 7; rd = 0; immediate = 256 }

load_translated : translate_address (user one_page) 256 false false ≡ ok (256, user one_page)
unfolding translate_address apply_entry read_word read_word_on memcpy memcpy_loop load store
load_translated = refl

exec_memory-lw_example :
    exec_memory Memory.lw load_entry (user one_page)
    ≡ ok (record (user one_page) {
      regs = update (user one_page).regs 7 (word_at (buffer one_page) 256);
    })
exec_memory-lw_example =
    exec_memory-lw load_entry (user one_page) (user-Fits one_page one_page-AreBytes) (omega arith)
      (omega arith) 256 load_translated (omega arith)
