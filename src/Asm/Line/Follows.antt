-- ===== src/Asm/Line/Follows.antt =====
-- `c32_asm_assemble_line` on well-formed states.
use crisp.Base.{
  ℕ, zero, suc, ◌+◌, ◌-◌, ◌≤◌, ◌<◌, ◌≡◌, ◌==◌, ltb, leb, not, ◌&&◌, refl, arith, ok, Option,
  Returns, returns,
}
use crisp.Base.Runs.{
  Returns-bind, Returns-if, Returns-mono, Agrees, agrees, Agrees-if, Agrees-same, Agrees-left,
  Agrees-mono, Agrees-ok,
}
use crisp.Array.{Array, update, load-ok, store-ok}
use crisp.CString.Search.{IsString}
use crisp.CString.Copy.{splice, memcpy-splice}
use crisp.Asm.Symbols.{AsmState, max_label_len}
use crisp.Asm.Symbols.Total.{Extends-refl, IsState, Relabelled, add_symbol-Returns}
use crisp.Asm.Mnemonics.Total.{parse_opcode-Returns}
use crisp.Asm.Tokens.{is_blank, is_end, blank_tokens}
use crisp.Asm.Tokens.Total.{skip_whitespace-Returns, tokenize-Returns}
use crisp.Asm.Line.{
  Verdict, label_loop, define_label, assemble_instruction, assemble_from, assemble_line,
}
use crisp.Asm.Line.Advance.{size_of_instruction, size_from, size_of_line}
use crisp.Asm.Line.Moves.{
  Follows, nothing-Follows, refused-Follows, assemble_opcode-Follows, relabelled-IsState,
  relabelled-Follows,
}

module _ (line : Array) (n : ℕ) (string : IsString line n) where
  assemble_instruction-Follows :
      (s : AsmState)
      → IsState s
      → (p : ℕ) → p ≤ n
      → Agrees (Follows s) (assemble_instruction s line p) (size_of_instruction line p)
  unfolding assemble_instruction size_of_instruction
  assemble_instruction-Follows s w p h =
      Agrees-same (tokenize-Returns line n string p blank_tokens 8 h (λ i. refl))
        λ (count, tokens) (few, ts).
          Agrees-if (count == 0) (λ _. agrees (nothing-Follows s w))
            (λ some_.
              let (k, first) = ts.strings 0 (ground arith) in
              Agrees-same (parse_opcode-Returns (tokens 0) k first)
                λ z h. assemble_opcode-Follows s w count tokens ts z h)

  -- A label that ends at `q`.
  label_loop-Returns :
      (left p : ℕ)
      → p ≤ n
      → n < p + left
      → Returns (λ q. (p ≤ q) × (q ≤ n)) (label_loop line left p)
  unfolding label_loop
  label_loop-Returns zero p h enough = absurd (omega arith)
  label_loop-Returns (suc left) p h enough = rw (load-ok line p (omega (arith, string.room))) (
      Returns-if (not (line.at p == 0) && not (line.at p == b':') && not (is_blank (line.at p)))
        (λ e.
          Returns-mono
            (label_loop-Returns left (p + 1) (ground (arith, string.terminator)) (omega arith))
            λ q (from, inside). (omega arith, inside))
        (λ _. returns (omega arith, h)))

  define_label-Returns :
      (s : AsmState)
      → IsState s
      → (p len : ℕ) → p + len ≤ n
      → len < max_label_len
      → Returns (Relabelled s) (define_label s line p len)
  unfolding define_label
  define_label-Returns s w p len inside short =
      rw
        (
          memcpy-splice (record { size = max_label_len; at = λ k. 0 }) 0 line p len (omega arith)
              (omega (arith, string.room)),
          store-ok (record { size = max_label_len; at = splice (λ k. 0) 0 line.at p len }) len 0
              short,
        )
        (Returns-if (s.pass == 1)
          (λ _.
            Returns-bind
              (add_symbol-Returns _ len label-IsString short s.current_address w.address s w.table)
              λ r relabelled. returns relabelled)
          (λ _. returns (record {
            table = w.table;
            address = refl;
            output = refl;
            output_size = refl;
            pass = refl;
            errors = refl;
            extends = Extends-refl s;
          })))
    where
      label-IsString :
          IsString
            (record { size = max_label_len; at = update (splice (λ k. 0) 0 line.at p len) len 0 })
            len
      label-IsString = record {
        room = short;
        terminator = ground arith;
        characters = λ k below. ground (arith, string.characters (p + k));
      }

  assemble_from-Follows :
      (s : AsmState)
      → IsState s
      → (p q : ℕ) → p ≤ q
      → q ≤ n
      → Agrees (Follows s) (assemble_from s line p q) (size_from line p q)
  unfolding assemble_from size_from
  assemble_from-Follows s w p q from inside = rw (load-ok line q (omega (arith, string.room))) (
      Agrees-if (line.at q == b':' && ltb 0 (q - p))
        (λ labelled.
          Agrees-if (leb max_label_len (q - p)) (λ _. agrees (refused-Follows s w))
            (λ short.
              Agrees-left (define_label-Returns s w p (q - p) (omega arith) (ground arith)) λ t l.
                Agrees-same
                  (skip_whitespace-Returns line n string (q + 1)
                    (ground (arith, string.terminator)))
                  λ p' k. rw (load-ok line p' (omega (arith, string.room, k.inside))) (
                    Agrees-if (line.at p' == 0)
                      (λ _.
                        agrees (
                          relabelled-Follows s t l
                            (nothing-Follows t (relabelled-IsState s t l w))))
                      (λ _.
                        Agrees-mono
                          (assemble_instruction-Follows t (relabelled-IsState s t l w) p' k.inside)
                          λ r size f. relabelled-Follows s t l f))))
        (λ _. assemble_instruction-Follows s w p (omega arith)))

  pub assemble_line-Follows :
      (s : AsmState) → IsState s → Agrees (Follows s) (assemble_line s line) (size_of_line line)
  unfolding assemble_line size_of_line
  assemble_line-Follows s w =
      Agrees-same (skip_whitespace-Returns line n string 0 (omega arith)) λ p k.
        rw (load-ok line p (omega (arith, string.room, k.inside))) (
          Agrees-if (is_end (line.at p)) (λ _. agrees (nothing-Follows s w))
            (λ _.
              Agrees-same
                (label_loop-Returns (line.size + 1) p k.inside (omega (arith, string.room)))
                λ q (from, inside). assemble_from-Follows s w p q from inside))

  -- On a well-formed state and a line that is a string, `c32_asm_assemble_line` ends without
  -- undefined behaviour in a well-formed state of the same pass. The text of the line alone gives
  -- its size: none if the line is refused, and then the addresses stay; else the line is accepted
  -- and the current address moves on by the size, the output in pass 2 too, or the pass is 2, the
  -- output has no room for the code, and the line is refused with the addresses unchanged.
  -- The number of errors, the bytes of the output that were there and the symbols that were
  -- defined are the old ones.
  pub assemble_line-size_of_line :
      (s : AsmState)
      → IsState s
      → (r : Verdict × AsmState) × (size : Option ℕ) × (assemble_line s line ≡ ok r)
        × (size_of_line line ≡ ok size)
        × Follows s r size
  assemble_line-size_of_line s w = Agrees-ok (assemble_line-Follows s w)
