-- ===== src/Vm/Interrupts/Return.antt =====
-- A dispatch as a whole, and the return from it.
use crisp.Base.{
  ℕ, ◌+◌, ◌-◌, ◌*◌, ◌^◌, ◌≤◌, ◌<◌, ◌≡◌, refl, arith, ok, ap, ◌∙◌, ◌==◌, true, false, if◌then◌else◌,
  u32, sub32, leb-eq-true,
}
use crisp.Array.{Array, update}
use crisp.Vm.Memory.{little_endian, read_word}
use crisp.Vm.Memory.Laws.{AreBytes, word_at, read_word_on-word_at}
use crisp.Vm.State.{Vm}
use crisp.Vm.Interrupts.{
  dispatched, clear_pending, push_frame, save_regs, save_frame, enter_handler, dispatch,
}
use crisp.Vm.Interrupts.Frame.{Saved, save_regs-Saved, restored, restore_regs-restored, word_at-eq}
use crisp.Vm.Instruction.{Instruction}
use crisp.Vm.Opcode.{Interrupt}
use crisp.Vm.Execute.System.{iret, exec_interrupt}
use crisp.Vm.Privilege.{privileged-kernel}
use crisp.Vm.Invariant.{Fits, update-IsWord}

-- `h` is the state in which the handler of interrupt `n` starts, dispatched from `vm`.
pub record Entered (vm : Vm) (n : ℕ) (h : Vm) : Type 0 where
  pub handler : h.pc ≡ word_at h.memory (n * 8)
  pub size : h.memory_size ≡ vm.memory_size
  pub kernel : h.kernel_mode ≡ true
  pub disabled : h.interrupts.enabled ≡ false
  pub saved_pc : h.interrupts.saved_pc ≡ vm.pc
  pub frame : h.interrupts.saved_regs_addr ≡ vm.regs 29 - 128
  pub regs :
      (k : ℕ) → h.regs k ≡ (if k == 4 then n else if k == 29 then vm.regs 29 - 128 else vm.regs k)
  pub pending : h.interrupts.pending ≡ (clear_pending vm n).interrupts.pending
  pub saved :
      Saved (update vm.regs 29 (vm.regs 29 - 128)) (vm.regs 29 - 128) 0 32 vm.memory h.memory

save_frame-ok :
    (p : Vm) (m : Array)
    → p.interrupts.saved_regs_addr + 128 ≤ p.memory_size
    → p.memory_size < 2 ^ 32
    → save_regs p.regs p.interrupts.saved_regs_addr 32 0 p.memory ≡ ok m
    → save_frame p ≡ ok (record p { memory = m })
unfolding save_frame
save_frame-ok p m room small e = rw (
  leb-eq-true {a = u32 (p.interrupts.saved_regs_addr + 128)} {b = p.memory_size} (omega arith),
  e,
)

enter_handler-ok :
    (p : Vm) (n : ℕ)
    → n * 8 + 4 ≤ p.memory_size
    → p.memory_size ≤ p.memory.size
    → AreBytes p.memory
    → enter_handler p n
      ≡ ok (
        dispatched,
        record p {
          interrupts = record (p.interrupts) { enabled = false };
          regs = update p.regs 4 n;
          pc = word_at p.memory (n * 8);
        },
      )
unfolding enter_handler read_word
enter_handler-ok p n vector fits bytes = rw (
  leb-eq-true {a = n * 8 + 4} {b = p.memory_size} vector,
  read_word_on-word_at little_endian p.memory (n * 8) (omega arith) bytes,
)

module _ (vm : Vm) (f : Fits vm) (n : ℕ) where
  abbrev frame_addr : ℕ
  frame_addr = vm.regs 29 - 128

  abbrev pushed_regs : ℕ → ℕ
  pushed_regs = update vm.regs 29 frame_addr

  abbrev handler_state : Array → Vm
  handler_state m = record vm {
    regs = update pushed_regs 4 n;
    pc = word_at m (n * 8);
    memory = m;
    kernel_mode = true;
    interrupts = record {
      enabled = false;
      pending = (clear_pending vm n).interrupts.pending;
      saved_pc = vm.pc;
      saved_regs_addr = frame_addr;
    };
  }

  abbrev pushed : Vm
  pushed = record vm {
    regs = pushed_regs;
    kernel_mode = true;
    interrupts = record (vm.interrupts) {
      pending = (clear_pending vm n).interrupts.pending;
      saved_pc = vm.pc;
      saved_regs_addr = frame_addr;
    };
  }

  push_frame-pushed : 128 ≤ vm.regs 29 → push_frame vm n ≡ pushed
  unfolding push_frame clear_pending
  push_frame-pushed low = ap with_sp (sp (f.regs 29 (omega arith)))
    where
      with_sp : ℕ → Vm
      with_sp s = record vm {
        regs = update vm.regs 29 s;
        kernel_mode = true;
        interrupts = record (vm.interrupts) {
          pending = (clear_pending vm n).interrupts.pending;
          saved_pc = vm.pc;
          saved_regs_addr = s;
        };
      }

      sp : vm.regs 29 < 2 ^ 32 → sub32 (vm.regs 29) 128 ≡ frame_addr
      sp h = omega arith

  handler_state-Entered :
      (m : Array) → Saved pushed_regs frame_addr 0 32 vm.memory m → Entered vm n (handler_state m)
  handler_state-Entered m s = record {
    handler = refl;
    size = refl;
    kernel = refl;
    disabled = refl;
    saved_pc = refl;
    frame = refl;
    regs = λ k. ground arith;
    pending = refl;
    saved = s;
  }

  -- In a well-formed machine whose vector of interrupt `n` lies inside the memory, and whose stack
  -- pointer is at least 128 and not above the memory size, the dispatch of `n` succeeds, in a
  -- state in which the handler starts: at the address in the vector, in kernel mode with
  -- interrupts disabled, with `n` in R4, the stack pointer 128 lower, the PC and the registers
  -- saved, and the pending bit of `n` cleared.
  pub dispatch-Entered :
      n * 8 + 4 ≤ vm.memory_size
      → 128 ≤ vm.regs 29
      → vm.regs 29 ≤ vm.memory_size
      → (h : Vm) × (dispatch vm n ≡ ok (dispatched, h)) × Entered vm n h
  unfolding dispatch
  dispatch-Entered vector low high =
      let (m, e, s) =
        save_regs-Saved pushed_regs (update-IsWord f 29 frame_addr (omega (arith, f.size)))
          frame_addr 32 0 32 vm.memory refl (omega arith) (omega (arith, f.allocated)) f.bytes in
      (
        handler_state m,
        rw (
          push_frame-pushed low,
          save_frame-ok pushed m (omega arith) f.size e,
          enter_handler-ok (record pushed { memory = m }) n vector (rw s.same_size f.allocated)
              s.bytes,
        ),
        handler_state-Entered m s,
      )

-- The handler that was entered in `h` is about to return, in `h'`: it is still in kernel mode, and
-- it has kept the saved PC, the frame's address and the frame.
pub record Returning (h h' : Vm) : Type 0 where
  pub fits : Fits h'
  pub kernel : h'.kernel_mode ≡ true
  pub saved_pc : h'.interrupts.saved_pc ≡ h.interrupts.saved_pc
  pub frame : h'.interrupts.saved_regs_addr ≡ h.interrupts.saved_regs_addr
  pub room : h.interrupts.saved_regs_addr + 128 ≤ h'.memory_size
  pub kept :
      (a : ℕ)
      → h.interrupts.saved_regs_addr ≤ a
      → a < h.interrupts.saved_regs_addr + 128
      → h'.memory.at a ≡ h.memory.at a

-- IRET of a frame inside the memory loads the registers and the PC, and enables interrupts.
iret-restored :
    (h : Vm)
    → Fits h
    → h.interrupts.saved_regs_addr + 128 ≤ h.memory_size
    → iret h
      ≡ ok (record h {
        pc = h.interrupts.saved_pc;
        regs = restored h.memory h.interrupts.saved_regs_addr 0 32 h.regs;
        interrupts = record (h.interrupts) { enabled = true };
      })
unfolding iret
iret-restored h f room = rw (
  leb-eq-true {a = u32 (h.interrupts.saved_regs_addr + 128)} {b = h.memory_size}
      (omega (arith, f.size)),
  restore_regs-restored h.memory h.interrupts.saved_regs_addr 32 0 32 h.regs f.bytes refl
      (omega (arith, f.allocated)),
)

-- Let `h` be the state in which the handler of a dispatch from `vm` starts, and `h'` a well-formed
-- state in kernel mode in which the saved PC, the frame's address and the frame are those of `h`,
-- and the frame lies inside the memory. IRET in `h'` succeeds: the PC and each of the 32 registers
-- are those of `vm`, except that R29 stays 128 lower; interrupts are enabled, and the machine is
-- in kernel mode whatever mode `vm` was in.
pub iret-dispatch :
    (vm h h' : Vm) (n : ℕ) (i : Instruction)
    → Entered vm n h
    → Returning h h'
    → (k : ℕ) → k < 32
    → (r : Vm) × (exec_interrupt Interrupt.iret i h' ≡ ok r)
      × (r.pc ≡ vm.pc)
      × (r.interrupts.enabled ≡ true)
      × (r.kernel_mode ≡ true)
      × (r.regs k ≡ (if k == 29 then vm.regs 29 - 128 else vm.regs k))
unfolding exec_interrupt
iret-dispatch vm h h' n i e b k below = (
  record h' {
    pc = h'.interrupts.saved_pc;
    regs = restored h'.memory h'.interrupts.saved_regs_addr 0 32 h'.regs;
    interrupts = record (h'.interrupts) { enabled = true };
  },
  privileged-kernel iret h' b.kernel ∙ iret-restored h' b.fits (omega (arith, b.room, b.frame)),
  b.saved_pc ∙ e.saved_pc,
  refl,
  b.kernel,
  ground (arith, slot k below, e.saved.inside k),
)
  where
    slot :
        (k : ℕ)
        → k < 32
        → word_at h'.memory (h'.interrupts.saved_regs_addr + k * 4)
          ≡ word_at h.memory (vm.regs 29 - 128 + k * 4)
    slot k below =
        ap (λ a. word_at h'.memory (a + k * 4)) (b.frame ∙ e.frame)
        ∙ word_at-eq h.memory h'.memory (vm.regs 29 - 128 + k * 4) (λ d small.
          b.kept (vm.regs 29 - 128 + k * 4 + d) (omega (arith, e.frame)) (omega (arith, e.frame)))
