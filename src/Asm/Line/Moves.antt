-- ===== src/Asm/Line/Moves.antt =====
-- What the parts of `c32_asm_assemble_line` of src/asm/c32_parser.c do to a well-formed state.
use crisp.Base.{
  ℕ, ◌+◌, ◌≤◌, ◌<◌, ◌≡◌, ◌⊎◌, ◌==◌, ltb, if◌then◌else◌, refl, ap, ◌∙◌, arith, ok, Option, none,
  some, Returns, returns, inl, inr, u8, u32, Bool-cases,
}
use crisp.Base.Int.{ℤ, pos, negsuc}
use crisp.Base.Runs.{Returns-if, Agrees, agrees, Agrees-left, Returns-Agrees}
use crisp.Vm.Instruction.{Instruction}
use crisp.Asm.Encode.{InRange, encode_instruction-encoded, encoded-AreBytes}
use crisp.Asm.Symbols.{AsmState, max_output_size}
use crisp.Asm.Symbols.Total.{Extends, Extends-refl, Extends-trans, IsState, Relabelled}
use crisp.Asm.Mnemonics.Total.{IsOpcode}
use crisp.Asm.Tokens.{Tokens}
use crisp.Asm.Tokens.Total.{AreTokens}
use crisp.Asm.Operands.{form_of, min_tokens}
use crisp.Asm.Operands.Total.{operands-Returns}
use crisp.Asm.Line.{Verdict, accepted, rejected, emit, assemble_opcode}
use crisp.Asm.Line.Advance.{size_of_opcode}

-- How the addresses move: by the size of the line if it is accepted, and not at all if it is
-- refused, as a line is whose code does not fit the output.
abbrev pub Moves : AsmState → Option ℕ → Verdict → AsmState → Type 0
Moves s none v s' =
    (v ≡ rejected) × (s'.current_address ≡ s.current_address) × (s'.output_size ≡ s.output_size)
Moves s (some k) v s' =
    ((v ≡ accepted)
      × (s'.current_address ≡ u32 (s.current_address + k))
      × (s'.output_size ≡ (if s.pass == 2 then s.output_size + k else s.output_size)))
    ⊎ ((v ≡ rejected)
        × (s'.current_address ≡ s.current_address)
        × (s'.output_size ≡ s.output_size)
        × (s.pass ≡ 2)
        × (max_output_size < s.output_size + k))

pub record Follows (s : AsmState) (r : Verdict × AsmState) (size : Option ℕ) : Type 0 where
  pub state : IsState r.1
  pub pass : r.1.pass ≡ s.pass
  pub errors : r.1.errors ≡ s.errors
  pub kept : (j : ℕ) → j < s.output_size → r.1.output.at j ≡ s.output.at j
  pub grown : s.output_size ≤ r.1.output_size
  pub extends : Extends s r.1
  pub moves : Moves s size r.0 r.1

-- A line without code.
pub nothing-Follows : (s : AsmState) → IsState s → Follows s (accepted, s) (some 0)
nothing-Follows s w = record {
  state = w;
  pass = refl;
  errors = refl;
  extends = Extends-refl s;
  kept = λ j below. refl;
  grown = ground (arith, w.written);
  moves = inl (refl, omega (arith, w.address), ground arith);
}

pub refused-Follows : (s : AsmState) → IsState s → Follows s (rejected, s) none
refused-Follows s w = record {
  state = w;
  pass = refl;
  errors = refl;
  extends = Extends-refl s;
  kept = λ j below. refl;
  grown = omega arith;
  moves = (refl, refl, refl);
}

emit-Follows :
    (s : AsmState)
    → IsState s
    → (inst : Instruction) → InRange inst
    → Returns (λ r. Follows s r (some 8)) (emit s inst)
unfolding emit
emit-Follows s w inst range =
    Returns-if (s.pass == 2)
      (λ second.
        Returns-if (ltb max_output_size (u32 (s.output_size + 8)))
          (λ full. returns (record {
            state = w;
            pass = refl;
            errors = refl;
            extends = record { grows = omega arith; names = λ k h. refl; fixed = λ k h d. refl };
            kept = λ j below. refl;
            grown = ground (arith, w.written);
            moves = inr (refl, refl, refl, ground arith, ground (arith, w.written));
          }))
          (λ fits.
            let room : s.output_size + 8 ≤ s.output.size = ground (arith, w.written, w.output) in
            rw (encode_instruction-encoded s.output s.output_size inst room range) (
              returns (record {
                state = record {
                  table = w.table;
                  address = omega arith;
                  bytes = encoded-AreBytes s.output s.output_size inst room range w.bytes;
                  output = w.output;
                  written = ground arith;
                };
                pass = refl;
                errors = refl;
                extends = record {
                  grows = omega arith;
                  names = λ k h. refl;
                  fixed = λ k h d. refl;
                };
                kept = λ j below. ground arith;
                grown = ground (arith, w.written);
                moves = inl (refl, refl, ground (arith, w.written));
              }))))
      (λ first. returns (record {
        state = record {
          table = w.table;
          address = omega arith;
          bytes = w.bytes;
          output = w.output;
          written = w.written;
        };
        pass = refl;
        errors = refl;
        extends = record { grows = omega arith; names = λ k h. refl; fixed = λ k h d. refl };
        kept = λ j below. refl;
        grown = ground (arith, w.written);
        moves = inl (refl, refl, ground arith);
      }))

module _ (s : AsmState) (w : IsState s) (count : ℕ) (tokens : Tokens)
    (ts : AreTokens tokens count) where
  -- The empty instruction with an opcode.
  abbrev empty_instruction : ℕ → Instruction
  empty_instruction op = record { opcode = u8 op; rs = 0; rt = 0; rd = 0; immediate = 0 }

  pub assemble_opcode-Follows :
      (z : ℤ)
      → IsOpcode z
      → Agrees (Follows s) (assemble_opcode s count tokens z) (ok (size_of_opcode count z))
  unfolding assemble_opcode size_of_opcode
  assemble_opcode-Follows (negsuc n) h = agrees (refused-Follows s w)
  assemble_opcode-Follows (pos op) h = elim (Bool-cases (ltb count (min_tokens (form_of op)))) [
    | inl few ↦ rw few (agrees (refused-Follows s w))
    | inr enough ↦ rw enough (
        Agrees-left
          (operands-Returns s w.table tokens count ts (form_of op) (empty_instruction op)
            (ground arith)
            (record {
              opcode = omega arith;
              rs = omega arith;
              rt = omega arith;
              rd = omega arith;
              immediate = omega arith;
            }))
          λ inst p. Returns-Agrees (emit-Follows s w inst p.range))
  ]

-- A change of the symbols is no change of the addresses.
module _ (s t : AsmState) (l : Relabelled s t) where
  pub relabelled-IsState : IsState s → IsState t
  relabelled-IsState w = record {
    table = l.table;
    address = rw l.address w.address;
    bytes = rw l.output w.bytes;
    output = rw l.output w.output;
    written = rw l.output_size w.written;
  }

  relabelled-Moves :
      (size : Option ℕ) (v : Verdict) (u : AsmState) → Moves t size v u → Moves s size v u
  relabelled-Moves none v u (e, a, o) =
      (e, omega (arith, a, l.address), omega (arith, o, l.output_size))
  relabelled-Moves (some k) v u (inl (e, a, o)) =
      inl (e, ground (arith, a, l.address), ground (arith, o, l.output_size, l.pass))
  relabelled-Moves (some k) v u (inr (e, a, o, second, full)) = inr (
    e,
    omega (arith, a, l.address),
    omega (arith, o, l.output_size),
    omega (arith, second, l.pass),
    omega (arith, full, l.output_size),
  )

  pub relabelled-Follows :
      {r : Verdict × AsmState} {size : Option ℕ} → Follows t r size → Follows s r size
  relabelled-Follows f = record {
    state = f.state;
    pass = f.pass ∙ l.pass;
    errors = f.errors ∙ l.errors;
    extends = Extends-trans s t _ l.extends f.extends;
    kept = λ j below. f.kept j (omega (arith, below, l.output_size)) ∙ ap (λ a. a.at j) l.output;
    grown = omega (arith, f.grown, l.output_size);
    moves = relabelled-Moves _ _ _ f.moves;
  }
