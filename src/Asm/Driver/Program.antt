-- ===== src/Asm/Driver/Program.antt =====
-- `c32_asm_assemble_file` and `main` of src/asm/c32asm.c on a whole file.
use crisp.Base.{
  ℕ, zero, suc, ◌^◌, ◌≤◌, ◌<◌, ◌≡◌, ◌⊎◌, true, false, refl, ap, ◌∙◌, arith, inl, inr, List, Option,
  none, some, ok, Returns, returns, ltb-eq-true,
}
use crisp.Base.Runs.{Returns-bind, Returns-if, Agrees-Returns, Returns-ok}
use crisp.Array.{Array, store-ok}
use crisp.CString.Fill.{memset-Filled}
use crisp.Vm.Memory.Laws.{AreBytes}
use crisp.Asm.Symbols.{
  Symbol, AsmState, get_symbol, set_symbol, clear_symbols, asm_init, max_output_size, max_label_len,
  max_symbols,
}
use crisp.Asm.Symbols.Total.{IsState}
use crisp.Asm.Line.{Verdict, accepted, rejected, accept}
use crisp.Asm.Driver.{
  Files, pass_loop, start_pass, has_errors, write_output, run_pass, assemble_file, assembler,
  exit_code,
}
use crisp.Asm.Driver.Passes.{
  AreLines, count, program_size, Leaves, Passed, pass_loop-Passed, pass_loop-program_size,
}

-- A state before `c32_asm_init`: its buffers have their sizes.
pub record HasRoom (state : AsmState) : Type 0 where
  pub names : (i : ℕ) → (state.symbols i).name.size ≡ max_label_len
  pub output : state.output.size ≡ max_output_size
  pub bytes : AreBytes state.output

clear_symbols-Returns :
    (n : ℕ) (symbols : ℕ → Symbol)
    → n ≤ max_symbols
    → ((i : ℕ) → (symbols i).name.size ≡ max_label_len)
    → Returns (λ symbols. (i : ℕ) → (symbols i).name.size ≡ max_label_len) (clear_symbols n symbols)
unfolding clear_symbols get_symbol set_symbol
clear_symbols-Returns zero symbols few names = returns names
clear_symbols-Returns (suc n) symbols few names =
    Returns-bind (clear_symbols-Returns n symbols (omega arith) names) λ symbols names.
      rw
        (
          ltb-eq-true {a = n} {b = max_symbols} (omega arith),
          store-ok (symbols n).name 0 0 (omega (arith, names n)),
        )
        (returns (λ i. ground (arith, names i, names n)))

asm_init-Returns :
    (state : AsmState) → HasRoom state → Returns (λ t. IsState t × (t.errors ≡ 0)) (asm_init state)
unfolding asm_init
asm_init-Returns state room =
    Returns-bind (clear_symbols-Returns max_symbols state.symbols (omega arith) room.names)
      λ symbols names.
        Returns-bind (memset-Filled state.output 0 0 max_output_size (omega (arith, room.output)))
          λ output f. returns (
            record {
              table = record {
                few = omega arith;
                room = names;
                names = λ i below. absurd (omega arith);
                addresses = λ i below. absurd (omega arith);
              };
              address = omega arith;
              bytes = λ j. ground (arith, f.bytes j, room.bytes j);
              output = f.size ∙ room.output;
              written = omega arith;
            },
            refl,
          )

-- Both times that the input is opened it gives the lines, and the output is written in full.
pub record Serves (files : Files) (lines : List Array) : Type 0 where
  pub first : files.first ≡ some lines
  pub second : files.second ≡ some lines
  pub created : files.created ≡ true
  pub written : (a : Array) (n : ℕ) → files.written a n ≡ n

-- The end of a run on a program of a size: it is accepted if it has a size and fits the output.
abbrev pub Assembled : Option ℕ → Verdict × AsmState → Type 0
Assembled none r = r.0 ≡ rejected
Assembled (some k) r =
    ((k ≤ max_output_size) × (r.0 ≡ accepted) × (r.1.output_size ≡ k))
    ⊎ ((max_output_size < k) × (r.0 ≡ rejected))

module _ (files : Files) (lines : List Array) (serves : Serves files lines)
    (strings : AreLines lines) (few : count lines < 2 ^ 31) (size : Option ℕ)
    (total : program_size lines ≡ ok size) where
  pass-Returns :
      (pass : ℕ) (s : AsmState)
      → IsState s
      → s.errors ≡ 0
      → Returns
          (λ t. Passed (start_pass pass s) (count lines) t size)
          (pass_loop (start_pass pass s) lines)
  pass-Returns pass s w none_yet = Agrees-Returns (
      rw total at
        (pass_loop-Passed (start_pass pass s) lines start strings (omega (arith, none_yet))))
    where
      start : IsState (start_pass pass s)
      start = record {
        table = w.table;
        address = omega arith;
        bytes = w.bytes;
        output = w.output;
        written = omega arith;
      }

  write_output-accepted : (t : AsmState) → write_output files t ≡ accept t
  unfolding write_output
  write_output-accepted t = rw (serves.created, serves.written t.output t.output_size) ground arith

-- What the errors say at the end of a pass.
refused-Assembled :
    (s t : AsmState) (size : Option ℕ)
    → s.output_size ≡ 0
    → s.errors ≡ 0
    → has_errors t ≡ true
    → Leaves s t size
    → Assembled size (rejected, t)
refused-Assembled s t none o e h l = refl
refused-Assembled s t (some k) o e h (inl (same, _, _)) = absurd (ground arith)
refused-Assembled s t (some k) o e h (inr (_, _, full)) = inr (omega arith, refl)

clean_pass :
    (s t : AsmState) (size : Option ℕ)
    → s.errors ≡ 0
    → t.errors < 2 ^ 31
    → has_errors t ≡ false
    → Leaves s t size
    → t.errors ≡ 0
clean_pass s t none e few h l = absurd (ground arith)
clean_pass s t (some k) e few h (inl (same, _, _)) = omega arith
clean_pass s t (some k) e few h (inr (more, _, _)) = absurd (ground arith)

accepted-Assembled :
    (s t : AsmState) (size : Option ℕ)
    → s.pass ≡ 2
    → s.output_size ≡ 0
    → s.errors ≡ 0
    → t.errors < 2 ^ 31
    → t.output_size ≤ max_output_size
    → has_errors t ≡ false
    → Leaves s t size
    → Assembled size (accepted, t)
accepted-Assembled s t none two o e few w h l = absurd (ground arith)
accepted-Assembled s t (some k) two o e few w h (inl (_, _, out)) =
    inl (ground arith, refl, ground arith)
accepted-Assembled s t (some k) two o e few w h (inr (more, _, _)) = absurd (ground arith)

module _ (files : Files) (lines : List Array) (serves : Serves files lines)
    (strings : AreLines lines) (few : count lines < 2 ^ 31) (size : Option ℕ)
    (total : program_size lines ≡ ok size) where
  abbrev Ends : Verdict × AsmState → Type 0
  Ends r = IsState r.1 × Assembled size r

  second-Returns :
      (s : AsmState)
      → IsState s
      → s.errors ≡ 0
      → Returns Ends (run_pass 2 s files.second (write_output files))
  unfolding run_pass
  second-Returns s w e = simp serves.second (
      Returns-bind (pass-Returns files lines serves strings few size total 2 s w e) λ t p.
        rw (write_output-accepted files lines serves strings few size total t) (
          Returns-if (has_errors t)
            (λ h. returns (p.state, refused-Assembled (start_pass 2 s) t size refl e h p.leaves))
            (λ h. returns (
              p.state,
              accepted-Assembled (start_pass 2 s) t size refl refl e (omega (arith, p.most))
                  p.state.written h p.leaves,
            ))))

  assemble_file-Returns :
      (s : AsmState) → IsState s → s.errors ≡ 0 → Returns Ends (assemble_file s files)
  unfolding assemble_file run_pass
  assemble_file-Returns s w e = simp serves.first (
      Returns-bind (pass-Returns files lines serves strings few size total 1 s w e) λ t p.
        Returns-if (has_errors t)
          (λ h. returns (p.state, refused-Assembled (start_pass 1 s) t size refl e h p.leaves))
          (λ h.
            second-Returns t p.state
              (clean_pass (start_pass 1 s) t size e (omega (arith, p.most)) h p.leaves)))

-- The exit code, and the size of the output of a run that succeeds.
abbrev pub Exits : Option ℕ → ℕ × AsmState → Type 0
Exits none r = r.0 ≡ 1
Exits (some k) r =
    ((k ≤ max_output_size) × (r.0 ≡ 0) × (r.1.output_size ≡ k))
    ⊎ ((max_output_size < k) × (r.0 ≡ 1))

Assembled-Exits :
    (size : Option ℕ) (v : Verdict) (t : AsmState)
    → Assembled size (v, t)
    → Exits size (exit_code v, t)
Assembled-Exits none v t e = ap exit_code e
Assembled-Exits (some k) v t (inl (fits, e, out)) = inl (fits, ap exit_code e, out)
Assembled-Exits (some k) v t (inr (full, e)) = inr (full, ap exit_code e)

module _ (files : Files) (lines : List Array) (serves : Serves files lines)
    (strings : AreLines lines) (few : count lines < 2 ^ 31) where
  assembler-Returns :
      (size : Option ℕ)
      → program_size lines ≡ ok size
      → (state : AsmState) → HasRoom state
      → Returns (λ r. IsState r.1 × Exits size r) (assembler state files)
  unfolding assembler
  assembler-Returns size total state room = Returns-bind (asm_init-Returns state room) λ s (w, e).
      Returns-bind (assemble_file-Returns files lines serves strings few size total s w e)
        λ (v, t) (w, a). returns (w, Assembled-Exits size v t a)

  -- The assembler on a file whose lines are strings, fewer than 2^31, which can be read twice and
  -- whose output can be created and written in full, ends without undefined behaviour. It exits
  -- with 0, and an output of the sum of the sizes of the lines, if no line is refused by its text
  -- and the sum is at most 65536; otherwise it exits with 1.
  pub assembler-program_size :
      (state : AsmState)
      → HasRoom state
      → (r : ℕ × AsmState) × (size : Option ℕ) × (assembler state files ≡ ok r)
        × (program_size lines ≡ ok size)
        × IsState r.1
        × Exits size r
  assembler-program_size state room =
      let (s, _, (w, e)) = Returns-ok (asm_init-Returns state room) in
      let (_, size, _, total, _) =
        pass_loop-program_size s lines w strings (omega (arith, e, few)) in
      let (r, run, (w, ends)) = Returns-ok (assembler-Returns size total state room) in
      (r, size, run, total, w, ends)
