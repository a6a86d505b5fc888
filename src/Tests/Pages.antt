-- ===== src/Tests/Pages.antt =====
-- A store in user mode.
use crisp.Base.{ℕ, ◌≡◌, ◌<◌, ◌^◌, refl, arith, ◌==◌, if◌then◌else◌, ok}
use crisp.Array.{update, load, store}
use crisp.CString.{memcpy, memcpy_loop}
use crisp.Vm.Memory.{read_word, read_word_on, write_word, write_word_on}
use crisp.Vm.State.{Vm, get_reg}
use crisp.Vm.Mmu.{translate_address, apply_entry}
use crisp.Vm.Instruction.{Instruction}
use crisp.Vm.Opcode.{opcode_of, select, opcodes, code}
use crisp.Vm.Execute.Memory.{data_address, store_with, exec_memory}
use crisp.Vm.Execute.{execute, exec_selected, exec_opcode}
use crisp.Vm.Privilege.Isolated.{Owns, execute-Owns}
use crisp.Tests.Guests.{user, user-Fits}

-- A page table entry that is valid, accessible to the user and writable.
abbrev writable_page : ℕ → ℕ
writable_page i = if i == 256 then 11 else 0

writable_page-AreBytes : (i : ℕ) → writable_page i < 2 ^ 8
writable_page-AreBytes i = ground arith

-- `sw R29, R0, 16`; the stack pointer is 512
abbrev sw : Instruction
sw = record { opcode = 0x58; rs = 0; rt = 29; rd = 0; immediate = 16 }

abbrev after_sw : Vm
after_sw = record (user writable_page) {
  memory = record ((user writable_page).memory) {
    at = update (update (update (update writable_page 16 0) 17 2) 18 0) 19 0;
  };
}

sw_in_user_mode : execute sw (user writable_page) ≡ ok after_sw
unfolding execute opcode_of select opcodes code exec_selected exec_opcode exec_memory data_address
    get_reg translate_address apply_entry store_with write_word write_word_on read_word read_word_on
    memcpy memcpy_loop load store
sw_in_user_mode = refl

execute-Owns_example : Owns (user writable_page) 0 17
execute-Owns_example =
    execute-Owns sw (user writable_page) (user-Fits writable_page writable_page-AreBytes) refl refl
      (omega arith) after_sw sw_in_user_mode 17 (λ e. omega arith)
