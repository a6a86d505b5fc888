-- ===== src/Vm/Invariant/Dispatch.antt =====
-- Well-formed states and `check_interrupts`.
use crisp.Base.{
  ℕ, zero, suc, ◌+◌, ◌-◌, ◌*◌, ◌/◌, ◌%◌, ◌^◌, ◌≤◌, ◌<◌, refl, ◌∙◌, arith, true, false, not, leb,
  u32,
}
use crisp.Base.Bits.{and_lt}
use crisp.Array.{Array, update}
use crisp.Vm.State.{Vm}
use crisp.Vm.Interrupts.{
  Check, clear_pending, push_frame, save_regs, save_frame, enter_handler, dispatch, is_pending,
  scan, check_interrupts,
}
use crisp.Vm.Memory.Laws.{AreBytes}
use crisp.Vm.Invariant.{
  IsWord, Fits, IsValid, Post, ends, Post-bind, Post-mono, Post-if, with_pc-Fits, halted-Fits,
  with_pending-Fits, update-IsWord,
}
use crisp.Vm.Invariant.Memory.{IsRewrite, read_word-IsWord, write_word-IsRewrite, with_rewrite-Fits}

abbrev pub Checked : Check × Vm → Type 0
Checked r = IsValid r.1

clear_pending-Fits : {vm : Vm} (n : ℕ) → Fits vm → Fits (clear_pending vm n)
unfolding clear_pending
clear_pending-Fits {vm} n f =
    with_pending-Fits f _ λ i h.
      ground (arith, f.pending i, and_lt 8 (vm.interrupts.pending (n / 8)) (255 - 2 ^ (n % 8)))

module _ {vm : Vm} (f : Fits vm) where
  framed-Fits :
      (pc sp : ℕ)
      → IsWord pc
      → IsWord sp
      → Fits (record vm {
        interrupts = record (vm.interrupts) { saved_pc = pc; saved_regs_addr = sp };
        kernel_mode = true;
        regs = update vm.regs 29 sp;
      })
  framed-Fits pc sp hp hs = let r = update-IsWord f 29 sp hs in grind arith

  entered-Fits :
      (n : ℕ)
      → IsWord n
      → Fits (record vm {
        interrupts = record (vm.interrupts) { enabled = false };
        regs = update vm.regs 4 n;
      })
  entered-Fits n h = let r = update-IsWord f 4 n h in grind arith

push_frame-IsValid : {vm : Vm} (n : ℕ) → IsValid vm → IsValid (push_frame vm n)
unfolding push_frame clear_pending
push_frame-IsValid n v = record {
  fits = framed-Fits (clear_pending-Fits n v.fits) _ _ v.fits.pc (omega arith);
  zero_reg = v.zero_reg;
}

save_regs-IsRewrite :
    (regs : ℕ → ℕ)
    → ((k : ℕ) → k < 32 → IsWord (regs k))
    → (addr left i : ℕ) (m : Array) → i + left ≤ 32
    → AreBytes m
    → Post (IsRewrite m) (save_regs regs addr left i m)
unfolding save_regs
save_regs-IsRewrite regs h addr zero i m below bytes = ends (bytes, refl)
save_regs-IsRewrite regs h addr (suc left) i m below bytes =
    Post-bind (write_word-IsRewrite m bytes (addr + i * 4) (regs i) (h i (omega arith)))
      λ m' (bytes', same).
        Post-mono (save_regs-IsRewrite regs h addr left (i + 1) m' (omega arith) bytes')
          λ m'' (bytes'', same'). (bytes'', same' ∙ same)

save_frame-IsValid : {vm : Vm} → IsValid vm → Post IsValid (save_frame vm)
unfolding save_frame
save_frame-IsValid {vm} v =
    Post-if (leb (u32 (vm.interrupts.saved_regs_addr + 128)) vm.memory_size)
      (λ _.
        Post-bind
          (save_regs-IsRewrite vm.regs v.fits.regs _ 32 0 vm.memory (omega arith) v.fits.bytes)
          λ m r. ends (record { fits = with_rewrite-Fits m v.fits r; zero_reg = v.zero_reg }))
      (λ _. ends v)

enter_handler-IsValid : {vm : Vm} (n : ℕ) → n < 256 → IsValid vm → Post Checked (enter_handler vm n)
unfolding enter_handler
enter_handler-IsValid {vm} n h v =
    Post-if (leb (n * 8 + 4) vm.memory_size)
      (λ _. Post-bind (read_word-IsWord vm.memory v.fits.bytes (n * 8)) λ pc hpc. ends (record {
        fits = with_pc-Fits (entered-Fits v.fits n (omega arith)) pc hpc;
        zero_reg = v.zero_reg;
      }))
      (λ _. ends (record {
        fits = halted-Fits (entered-Fits v.fits n (omega arith));
        zero_reg = v.zero_reg;
      }))

dispatch-IsValid : {vm : Vm} (n : ℕ) → n < 256 → IsValid vm → Post Checked (dispatch vm n)
unfolding dispatch
dispatch-IsValid n h v =
    Post-bind (save_frame-IsValid (push_frame-IsValid n v)) λ saved v'. enter_handler-IsValid n h v'

scan-IsValid : {vm : Vm} (left n : ℕ) → n + left ≤ 255 → IsValid vm → Post Checked (scan left n vm)
unfolding scan
scan-IsValid zero n h v = ends v
scan-IsValid {vm} (suc left) n h v =
    Post-if (is_pending vm n) (λ _. dispatch-IsValid n (omega arith) v)
      (λ _. scan-IsValid left (n + 1) (omega arith) v)

pub check_interrupts-IsValid : {vm : Vm} → IsValid vm → Post Checked (check_interrupts vm)
unfolding check_interrupts
check_interrupts-IsValid {vm} v =
    Post-if (not vm.interrupts.enabled) (λ _. ends v) (λ _. scan-IsValid 255 0 (omega arith) v)
