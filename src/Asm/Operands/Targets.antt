-- ===== src/Asm/Operands/Targets.antt =====
-- Where the machine goes by the targets that `c32_asm_assemble_line` computes from labels.
use crisp.Base.{ℕ, ◌+◌, ◌<◌, ◌≡◌, refl, ap, arith, true, ok, u32, sub32, ltb-eq-true}
use mathlib.Core.Path.{subst}
use crisp.Base.Int.{pos}
use crisp.Base.Runs.{Returns-ok}
use crisp.Array.{Array}
use crisp.CString.Search.{IsString}
use crisp.Asm.Symbols.{AsmState, get_symbol, find_symbol, max_symbols}
use crisp.Asm.Symbols.Total.{IsTable, IsIndex, find_symbol-Returns}
use crisp.Asm.Operands.{found_target, branch_target, jump_target}
use crisp.Vm.State.{Vm}
use crisp.Vm.Instruction.{Instruction}
use crisp.Vm.Opcode.{Jump}
use crisp.Vm.Execute.Control.{branch_if, exec_jump}

module _ (state : AsmState) (table : IsTable state.symbols state.num_symbols) (token : Array)
    (n : ℕ) (string : IsString token n) (idx : ℕ) (found : find_symbol state token ≡ ok (pos idx))
    (i : Instruction) (vm : Vm) where
  abbrev label : ℕ
  label = (state.symbols idx).address

  idx-IsIndex : idx < state.num_symbols
  idx-IsIndex =
      let (z, e, below) = Returns-ok (find_symbol-Returns token n string state table) in
      let same : z ≡ pos idx = cc in subst (IsIndex state.num_symbols) same below

  found_target-label :
      (place number : ℕ → ℕ) → found_target state token place number (pos idx) ≡ ok (place label)
  unfolding found_target get_symbol
  found_target-label place number =
      rw (ltb-eq-true {a = idx} {b = max_symbols} (omega (arith, idx-IsIndex, table.few))) refl

  -- A branch to a defined label, at the address of the current line from any load address on: when
  -- the machine takes it, with the PC behind the instruction, it goes to the label from the same
  -- load address on.
  pub branch_if-branch_target :
      (load_addr : ℕ)
      → (imm : ℕ) × (branch_target state token ≡ ok imm)
        × (branch_if true
              (record i { immediate = imm })
              (record vm { pc = u32 (load_addr + state.current_address + 8) })
            ≡ ok (record vm { pc = u32 (load_addr + label) }))
  unfolding branch_target branch_if
  branch_if-branch_target load_addr = (
    sub32 label (u32 (state.current_address + 8)),
    rw
        (
          found,
          found_target-label (λ address. sub32 address (u32 (state.current_address + 8)))
              (λ imm. imm),
        )
        refl,
    ap (λ pc. ok (record vm { pc = pc })) (omega (arith, table.addresses idx idx-IsIndex)),
  )

  -- A jump to a defined label goes to the label in a program that is loaded at 0x1000, and only
  -- there.
  pub exec_jump-jump_target :
      (imm : ℕ) × (jump_target state token ≡ ok imm)
      × (exec_jump Jump.j (record i { immediate = imm }) vm
          ≡ ok (record vm { pc = u32 (label + 0x1000) }))
  unfolding jump_target exec_jump
  exec_jump-jump_target = (
    u32 (label + 0x1000),
    rw (found, found_target-label (λ address. u32 (address + 0x1000)) (λ imm. u32 (imm + 0x1000)))
        refl,
    refl,
  )
