-- ===== src/Vm/Interrupts/Vector.antt =====
-- `c32_set_interrupt_handler`, and the dispatch to the handler that it set.
use crisp.Base.{ℕ, ◌+◌, ◌-◌, ◌*◌, ◌≤◌, ◌≡◌, refl, ◌∙◌, arith, ok, leb-eq-true, inl}
use crisp.Array.{Array}
use crisp.Vm.Memory.{little_endian, write_word}
use crisp.Vm.Memory.Laws.{with_word, write_word_on-with_word, word_at-with_word, byte_of-lt}
use crisp.Vm.State.{Vm}
use crisp.Vm.Interrupts.{set_interrupt_handler, dispatch, dispatched}
use crisp.Vm.Interrupts.Frame.{word_at-eq}
use crisp.Vm.Interrupts.Return.{dispatch-Entered}
use crisp.Vm.Invariant.{Fits, IsWord}
use crisp.Vm.Invariant.Memory.{with_rewrite-Fits}

module _ (vm : Vm) (f : Fits vm) (n handler_addr : ℕ) (word : IsWord handler_addr) where
  abbrev with_vector : Array
  with_vector = record (vm.memory) { at = with_word vm.memory.at (n * 8) handler_addr }

  abbrev with_handler : Vm
  with_handler = record vm { memory = with_vector }

  set_interrupt_handler-with_handler :
      n * 8 + 4 ≤ vm.memory_size → set_interrupt_handler vm n handler_addr ≡ ok with_handler
  unfolding set_interrupt_handler write_word
  set_interrupt_handler-with_handler vector =
      rw
        (
          leb-eq-true vector,
          write_word_on-with_word little_endian vm.memory (n * 8) handler_addr
              (omega (arith, f.allocated)) word,
        )
        refl

  with_handler-Fits : Fits with_handler
  with_handler-Fits =
      with_rewrite-Fits with_vector f
        ((λ j. ground (arith, f.bytes j, byte_of-lt handler_addr (0 + (j - n * 8)))), refl)

  -- In a well-formed machine whose vector of interrupt `n` lies inside the memory, and whose
  -- stack pointer is not above the memory size and at least 128 above that vector, setting the
  -- handler of `n` succeeds, and so does the dispatch of `n` after that, which jumps to the
  -- handler's address.
  pub dispatch-set_interrupt_handler :
      n * 8 + 4 ≤ vm.memory_size
      → n * 8 + 4 + 128 ≤ vm.regs 29
      → vm.regs 29 ≤ vm.memory_size
      → (vm' : Vm) × (h : Vm) × (set_interrupt_handler vm n handler_addr ≡ ok vm')
        × (dispatch vm' n ≡ ok (dispatched, h))
        × (h.pc ≡ handler_addr)
  dispatch-set_interrupt_handler vector low high =
      let (h, e, entered) =
        dispatch-Entered with_handler with_handler-Fits n vector (omega arith) high in
      (
        with_handler,
        h,
        set_interrupt_handler-with_handler vector,
        e,
        entered.handler
            ∙ word_at-eq with_vector h.memory (n * 8)
                (λ k below. entered.saved.outside (n * 8 + k) (inl (omega arith)))
            ∙ word_at-with_word vm.memory (n * 8) handler_addr word,
      )
