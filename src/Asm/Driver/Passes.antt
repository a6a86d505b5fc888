-- ===== src/Asm/Driver/Passes.antt =====
-- A pass of `c32_asm_assemble_file` over the lines of a file.
use crisp.Base.{
  ℕ, suc, ◌+◌, ◌-◌, ◌^◌, ◌≤◌, ◌<◌, ◌≡◌, ◌⊎◌, ◌==◌, ltb, if◌then◌else◌, refl, ◌∙◌, arith, inl, inr,
  List, [], ◌∷◌, Option, none, some, Outcome, ok, ◌>>=◌, u32, Returns, returns,
}
use crisp.Base.Runs.{
  Returns-bind, Returns-if, Agrees, agrees, Agrees-same, Agrees-bind, Agrees-right, Agrees-ok,
}
use crisp.Array.{Array, update, load-ok, store-ok}
use crisp.CString.Search.{IsString, strlen-IsString}
use crisp.Asm.Symbols.{AsmState, max_output_size}
use crisp.Asm.Symbols.Total.{IsState, Extends, Extends-refl, Extends-trans}
use crisp.Asm.Line.{Verdict, accepted, rejected}
use crisp.Asm.Line.Advance.{size_of_line}
use crisp.Asm.Line.Moves.{Moves, Follows}
use crisp.Asm.Line.Follows.{assemble_line-Follows}
use crisp.Asm.Driver.{strip_character, strip_newline, count_error, pass_loop}

-- The lines hold strings, as the ones from `fgets` do.
pub data AreLines : List Array → Type 0 where
  no_line : AreLines []
  next_line :
      {line : Array} {lines : List Array} (n : ℕ)
      → IsString line n
      → AreLines lines
      → AreLines (line ∷ lines)

unfoldable pub count : List Array → ℕ
count [] = 0
count (line ∷ lines) = suc (count lines)

-- The size of the code of lines, by their text alone; there is none if a line is refused.
abbrev pub add_sizes : Option ℕ → Option ℕ → Option ℕ
add_sizes none size = none
add_sizes (some k) none = none
add_sizes (some k) (some l) = some (k + l)

unfoldable pub program_size : List Array → Outcome (Option ℕ)
program_size [] = ok (some 0)
program_size (line ∷ lines) = do
  line ← strip_newline line
  size ← size_of_line line
  total ← program_size lines
  ok (add_sizes size total)

abbrev pub HasString : Array → Type 0
HasString line = (n : ℕ) × IsString line n

-- The first `m` characters of a string are one.
cut-IsString :
    (line : Array) (n m : ℕ)
    → IsString line n
    → m ≤ n
    → IsString (record line { at = update line.at m 0 }) m
cut-IsString line n m s h = record {
  room = omega (arith, s.room);
  terminator = ground arith;
  characters = λ j below. ground (arith, s.characters j);
}

strip_newline-Returns :
    (line : Array) (n : ℕ) → IsString line n → Returns HasString (strip_newline line)
unfolding strip_newline strip_character
strip_newline-Returns line n s = rw (strlen-IsString line n s) (
    Returns-bind {P = λ l. (IsString l n ⊎ IsString l (n - 1)) × (l.size ≡ line.size)}
      (Returns-if (ltb 0 n)
        (λ e. rw (load-ok line (n - 1) (omega (arith, s.room))) (
          Returns-if (line.at (n - 1) == b'\n')
            (λ _.
              rw (store-ok line (n - 1) 0 (omega (arith, s.room)))
                (returns (inr (cut-IsString line n (n - 1) s (omega arith)), refl)))
            (λ _. returns (inl s, refl))))
        (λ _. returns (inl s, refl)))
      λ l (t, size).
        Returns-if (ltb 1 n)
          (λ e. rw (load-ok l (n - 2) (omega (arith, size, s.room))) (
            Returns-if (l.at (n - 2) == b'\r')
              (λ _.
                rw (store-ok l (n - 2) 0 (omega (arith, size, s.room))) (returns (n - 2, cut l t)))
              (λ _. returns (either l t))))
          (λ _. returns (either l t)))
  where
    cut :
        (l : Array)
        → (IsString l n) ⊎ (IsString l (n - 1))
        → IsString (record l { at = update l.at (n - 2) 0 }) (n - 2)
    cut l (inl t) = cut-IsString l n (n - 2) t (omega arith)
    cut l (inr t) = cut-IsString l (n - 1) (n - 2) t (omega arith)

    either : (l : Array) → (IsString l n) ⊎ (IsString l (n - 1)) → HasString l
    either l (inl t) = (n, t)
    either l (inr t) = (n - 1, t)

-- What a pass leaves behind: either no line is refused and the addresses move on by the size of
-- the lines, or there are errors, and then a line is refused by its text or in pass 2 the code
-- has no room.
abbrev pub Leaves : AsmState → AsmState → Option ℕ → Type 0
Leaves s t none = s.errors < t.errors
Leaves s t (some k) =
    ((t.errors ≡ s.errors)
      × (t.current_address ≡ u32 (s.current_address + k))
      × (t.output_size ≡ (if s.pass == 2 then s.output_size + k else s.output_size)))
    ⊎ ((s.errors < t.errors) × (s.pass ≡ 2) × (max_output_size < s.output_size + k))

pub record Passed (s : AsmState) (number : ℕ) (t : AsmState) (size : Option ℕ) : Type 0 where
  pub state : IsState t
  pub pass : t.pass ≡ s.pass
  pub least : s.errors ≤ t.errors
  pub most : t.errors ≤ s.errors + number
  pub kept : (j : ℕ) → j < s.output_size → t.output.at j ≡ s.output.at j
  pub grown : s.output_size ≤ t.output_size
  pub extends : Extends s t
  pub leaves : Leaves s t size

error-IsState : (t : AsmState) (e : ℕ) → IsState t → IsState (record t { errors = e })
error-IsState t e w = record {
  table = w.table;
  address = w.address;
  bytes = w.bytes;
  output = w.output;
  written = w.written;
}

error-Extends : (s t : AsmState) (e : ℕ) → Extends s t → Extends s (record t { errors = e })
error-Extends s t e x = record { grows = x.grows; names = x.names; fixed = x.fixed }

-- One line.
counted-Leaves :
    (s : AsmState) (v : Verdict) (t : AsmState) (size : Option ℕ)
    → s.errors + 1 < 2 ^ 31
    → t.errors ≡ s.errors
    → Moves s size v t
    → Leaves s (count_error (v, t)) size
unfolding count_error
counted-Leaves s accepted t none few e (v, _, _) = absurd (cc v)
counted-Leaves s rejected t none few e (v, _, _) = omega (arith, e)
counted-Leaves s accepted t (some k) few e (inl (v, a, o)) = inl (e, a, o)
counted-Leaves s rejected t (some k) few e (inl (v, _, _)) = absurd (cc v)
counted-Leaves s accepted t (some k) few e (inr (v, _, _, _, _)) = absurd (cc v)
counted-Leaves s rejected t (some k) few e (inr (v, a, o, second, full)) =
    inr (omega (arith, e), second, full)

counted-Passed :
    (s : AsmState) (r : Verdict × AsmState) (size : Option ℕ)
    → s.errors + 1 < 2 ^ 31
    → Follows s r size
    → Passed s 1 (count_error r) size
unfolding count_error
counted-Passed s (accepted, t) size few f = record {
  state = f.state;
  pass = f.pass;
  least = omega (arith, f.errors);
  most = omega (arith, f.errors);
  kept = f.kept;
  grown = f.grown;
  extends = f.extends;
  leaves = counted-Leaves s accepted t size few f.errors f.moves;
}
counted-Passed s (rejected, t) size few f = record {
  state = error-IsState t _ f.state;
  pass = f.pass;
  least = omega (arith, f.errors);
  most = omega (arith, f.errors);
  kept = f.kept;
  grown = f.grown;
  extends = error-Extends s t _ f.extends;
  leaves = counted-Leaves s rejected t size few f.errors f.moves;
}

-- A pass over some lines and then over more.
joined-Leaves :
    (s t u : AsmState) (size total : Option ℕ)
    → t.pass ≡ s.pass
    → s.errors ≤ t.errors
    → t.errors ≤ u.errors
    → Leaves s t size
    → Leaves t u total
    → Leaves s u (add_sizes size total)
joined-Leaves s t u none total same a b l m = omega arith
joined-Leaves s t u (some k) none same a b l m = omega arith
joined-Leaves s t u (some k) (some j) same a b (inr (more, second, full)) m =
    inr (omega arith, second, omega arith)
joined-Leaves s t u (some k) (some j) same a b (inl (e, c, o)) (inl (e', c', o')) =
    inl (omega arith, ground arith, ground arith)
joined-Leaves s t u (some k) (some j) same a b (inl (e, c, o)) (inr (more, second, full)) =
    inr (omega arith, same_sym, ground arith)
  where
    same_sym : s.pass ≡ 2
    same_sym = omega arith

pub pass_loop-Passed :
    (s : AsmState) (lines : List Array)
    → IsState s
    → AreLines lines
    → s.errors + count lines < 2 ^ 31
    → Agrees (Passed s (count lines)) (pass_loop s lines) (program_size lines)
unfolding pass_loop program_size count
pass_loop-Passed s [] w no_line few = agrees (record {
  state = w;
  pass = refl;
  least = omega arith;
  most = omega arith;
  kept = λ j below. refl;
  grown = omega arith;
  extends = Extends-refl s;
  leaves = inl (refl, omega (arith, w.address), ground arith);
})
pass_loop-Passed s (line ∷ lines) w (next_line n string rest) few =
    Agrees-same (strip_newline-Returns line n string) λ l (m, cut).
      Agrees-bind (assemble_line-Follows l m cut s w) λ r size f.
        let first = counted-Passed s r size (omega arith) f in
        Agrees-right (add_sizes size)
          (pass_loop-Passed (count_error r) lines first.state rest (omega (arith, first.most)))
          λ t total p. record {
            state = p.state;
            pass = p.pass ∙ first.pass;
            least = omega (arith, p.least, first.least);
            most = omega (arith, p.most, first.most);
            kept = λ j below. p.kept j (omega (arith, below, first.grown)) ∙ first.kept j below;
            grown = omega (arith, p.grown, first.grown);
            extends = Extends-trans s (count_error r) t first.extends p.extends;
            leaves =
                joined-Leaves s (count_error r) t size total first.pass first.least p.least
                  first.leaves p.leaves;
          }

-- A pass over lines that are strings, from a well-formed state and with a number of errors that an
-- `int` can hold, ends without undefined behaviour in a well-formed state, and the sum of the sizes
-- of the lines is computed by their text alone. If no line is refused, the current address has
-- moved on by the sum, and in pass 2 the output as well; there are more errors than before exactly
-- in the other cases, where a line is refused by its text or, in pass 2, the sum does not fit the
-- output. The bytes of the output that were there are kept, and so are the symbols that were
-- defined.
pub pass_loop-program_size :
    (s : AsmState) (lines : List Array)
    → IsState s
    → AreLines lines
    → s.errors + count lines < 2 ^ 31
    → (t : AsmState) × (size : Option ℕ) × (pass_loop s lines ≡ ok t)
      × (program_size lines ≡ ok size)
      × Passed s (count lines) t size
pass_loop-program_size s lines w strings few = Agrees-ok (pass_loop-Passed s lines w strings few)
