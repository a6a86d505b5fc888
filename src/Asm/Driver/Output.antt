-- ===== src/Asm/Driver/Output.antt =====
-- The code that `c32_asm_assemble_line` of src/asm/c32_parser.c writes in pass 2.
use crisp.Base.{ℕ, ◌+◌, ◌^◌, ◌≤◌, ◌<◌, ◌≡◌, refl, ◌∙◌, arith, List, ok, u32}
use crisp.Array.{Array, load-ok}
use crisp.Vm.Memory.{little_endian, read_word}
use crisp.Vm.Memory.Laws.{AreBytes, read_word_on-word_at}
use crisp.Vm.Instruction.{Instruction}
use crisp.Vm.Step.{decode}
use crisp.Asm.Encode.{
  InRange, encoded, encode_instruction-encoded, encoded-AreBytes, decode-encoded,
}
use crisp.Asm.Symbols.{AsmState, max_output_size}
use crisp.Asm.Symbols.Total.{IsState}
use crisp.Asm.Line.{accepted, emit}
use crisp.Asm.Driver.{pass_loop}
use crisp.Asm.Driver.Passes.{AreLines, count, pass_loop-program_size}

-- Decoding looks at eight bytes.
pub decode-same :
    (a b : Array) (p q : ℕ)
    → p + 8 ≤ a.size
    → q + 8 ≤ b.size
    → AreBytes a
    → AreBytes b
    → ((j : ℕ) → j < 8 → a.at (p + j) ≡ b.at (q + j))
    → decode a p ≡ decode b q
unfolding decode read_word
decode-same a b p q room room' bytes bytes' same =
    let first : a.at p ≡ b.at q = ground (arith, same 0) in
    rw
      (
        load-ok a p (omega arith),
        load-ok a (p + 1) (omega arith),
        load-ok a (p + 2) (omega arith),
        load-ok a (p + 3) (omega arith),
        read_word_on-word_at little_endian a (p + 4) (omega arith) bytes,
        load-ok b q (omega arith),
        load-ok b (q + 1) (omega arith),
        load-ok b (q + 2) (omega arith),
        load-ok b (q + 3) (omega arith),
        read_word_on-word_at little_endian b (q + 4) (omega arith) bytes',
        first,
        same 1 (omega arith),
        same 2 (omega arith),
        same 3 (omega arith),
        same 4 (omega arith),
        high 1 (omega arith),
        high 2 (omega arith),
        high 3 (omega arith),
      )
      refl
  where
    high : (k : ℕ) → k < 4 → a.at (p + 4 + k) ≡ b.at (q + 4 + k)
    high k h = ground (arith, same (4 + k))

-- The output has the code of an instruction at `p`.
pub record HasCode (u : AsmState) (p : ℕ) (inst : Instruction) : Type 0 where
  pub decoded : decode u.output p ≡ ok inst
  pub written : p + 8 ≤ u.output_size
  pub most : u.output_size ≤ max_output_size
  pub bytes : AreBytes u.output
  pub size : u.output.size ≡ max_output_size

module _ (s : AsmState) (w : IsState s) (second : s.pass ≡ 2) (inst : Instruction)
    (range : InRange inst) (room : s.output_size + 8 ≤ max_output_size) where
  abbrev emitted : AsmState
  emitted = record s {
    output = encoded s.output s.output_size inst (omega (arith, room, w.output)) range;
    output_size = u32 (s.output_size + 8);
    current_address = u32 (s.current_address + 8);
  }

  emit-emitted : emit s inst ≡ ok (accepted, emitted)
  unfolding emit
  emit-emitted =
      rw
        (
          second,
          encode_instruction-encoded s.output s.output_size inst (omega (arith, room, w.output))
              range,
        )
        (ground arith)

  emitted-IsState : IsState emitted
  emitted-IsState = record {
    table = w.table;
    address = omega arith;
    bytes =
        encoded-AreBytes s.output s.output_size inst (omega (arith, room, w.output)) range w.bytes;
    output = w.output;
    written = ground arith;
  }

  -- In a well-formed state of pass 2 with eight bytes of room, an instruction whose fields are in
  -- range is written; and after any lines that follow, strings all, the output still has it at its
  -- place.
  pub pass_loop-emit-HasCode :
      (lines : List Array)
      → AreLines lines
      → s.errors + count lines < 2 ^ 31
      → (t u : AsmState) × (emit s inst ≡ ok (accepted, t))
        × (pass_loop t lines ≡ ok u)
        × HasCode u s.output_size inst
  pass_loop-emit-HasCode lines strings few =
      let (u, size, run, total, p) =
        pass_loop-program_size emitted lines emitted-IsState strings few in
      (
        emitted,
        u,
        emit-emitted,
        run,
        record {
          decoded =
              decode-same u.output emitted.output s.output_size s.output_size
                (omega (arith, room, p.state.output)) (omega (arith, room, emitted-IsState.output))
                p.state.bytes emitted-IsState.bytes
                (λ j below. p.kept (s.output_size + j) (ground arith))
              ∙ decode-encoded s.output s.output_size inst (omega (arith, room, w.output)) range
                  w.bytes;
          written = ground (arith, p.grown);
          most = p.state.written;
          bytes = p.state.bytes;
          size = p.state.output;
        },
      )
