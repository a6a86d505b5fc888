-- ===== src/Tests/Interrupts.antt =====
-- The bitmap, the dispatch and the return at concrete machines.
use crisp.Base.{
  ℕ, zero, suc, ◌-◌, ◌<◌, ◌≡◌, refl, ◌∙◌, arith, true, false, ◌||◌, ◌==◌, if◌then◌else◌, ok, inl,
}
use crisp.Vm.State.{Vm}
use crisp.Vm.Interrupts.{raise_interrupt, is_pending, check_interrupts, dispatch, dispatched, idle}
use crisp.Vm.Interrupts.Pending.{is_pending-raise_interrupt}
use crisp.Vm.Interrupts.Priority.{check_interrupts-dispatch, check_interrupts-idle}
use crisp.Vm.Interrupts.Return.{Entered, Returning, dispatch-Entered, iret-dispatch}
use crisp.Vm.Interrupts.Vector.{dispatch-set_interrupt_handler}
use crisp.Vm.Interrupts.{set_interrupt_handler}
use crisp.Vm.Instruction.{Instruction}
use crisp.Vm.Opcode.{Interrupt}
use crisp.Vm.Execute.System.{exec_interrupt}
use crisp.Vm.Invariant.{Fits, IsValid, Post-ok}
use crisp.Vm.Invariant.Dispatch.{check_interrupts-IsValid}
use crisp.Tests.Guests.{
  interrupted, kernel, addi_program, addi_program-AreBytes, interrupted-Fits, interrupted-IsValid,
}

abbrev guest : Vm
guest = interrupted addi_program

guest-Fits : Fits guest
guest-Fits = interrupted-Fits addi_program addi_program-AreBytes

is_pending-raise_interrupt_example :
    is_pending (raise_interrupt guest 5) 3 ≡ (3 == 5 || is_pending guest 3)
is_pending-raise_interrupt_example =
    is_pending-raise_interrupt guest guest-Fits.pending 5 3 (omega arith) (omega arith)

guest_pending : is_pending guest 3 ≡ true
unfolding is_pending
guest_pending = refl

guest_lowest : (k : ℕ) → k < 3 → is_pending guest k ≡ false
unfolding is_pending
guest_lowest zero h = refl
guest_lowest (suc zero) h = refl
guest_lowest (suc (suc zero)) h = refl
guest_lowest (suc (suc (suc k))) h = absurd (omega arith)

check_interrupts-dispatch_example : check_interrupts guest ≡ dispatch guest 3
check_interrupts-dispatch_example =
    check_interrupts-dispatch guest 3 refl (omega arith) guest_pending guest_lowest

check_interrupts-idle_example :
    check_interrupts (kernel addi_program) ≡ ok (idle, kernel addi_program)
check_interrupts-idle_example = check_interrupts-idle (kernel addi_program) (inl refl)

dispatch-Entered_example : (h : Vm) × (dispatch guest 3 ≡ ok (dispatched, h)) × Entered guest 3 h
dispatch-Entered_example =
    dispatch-Entered guest guest-Fits 3 (omega arith) (omega arith) (omega arith)

-- The handler's first state.
entered : (h : Vm) × (dispatch guest 3 ≡ ok (dispatched, h)) × Entered guest 3 h
entered = dispatch-Entered guest guest-Fits 3 (omega arith) (omega arith) (omega arith)

abbrev handler : Vm
handler = entered.0

handler-IsValid : IsValid handler
handler-IsValid =
    Post-ok (check_interrupts-IsValid (interrupted-IsValid addi_program addi_program-AreBytes))
      (check_interrupts-dispatch guest 3 refl (omega arith) guest_pending guest_lowest ∙ entered.1)

-- It returns at once.
handler-Returning : Returning handler handler
handler-Returning = record {
  fits = handler-IsValid.fits;
  kernel = entered.2.kernel;
  saved_pc = refl;
  frame = refl;
  room = omega (arith, entered.2.frame, entered.2.size);
  kept = λ a low high. refl;
}

abbrev return : Instruction
return = record { opcode = 0xF4; rs = 0; rt = 0; rd = 0; immediate = 0 }

iret-dispatch_example :
    (r : Vm) × (exec_interrupt Interrupt.iret return handler ≡ ok r)
    × (r.pc ≡ 0)
    × (r.interrupts.enabled ≡ true)
    × (r.kernel_mode ≡ true)
    × (r.regs 7 ≡ (if 7 == 29 then 512 - 128 else 0))
iret-dispatch_example =
    iret-dispatch guest handler handler 3 return entered.2 handler-Returning 7 (omega arith)

dispatch-set_interrupt_handler_example :
    (vm' : Vm) × (h : Vm) × (set_interrupt_handler guest 3 0x40 ≡ ok vm')
    × (dispatch vm' 3 ≡ ok (dispatched, h))
    × (h.pc ≡ 0x40)
dispatch-set_interrupt_handler_example =
    dispatch-set_interrupt_handler guest guest-Fits 3 0x40 (omega arith) (omega arith) (omega arith)
      (omega arith)
