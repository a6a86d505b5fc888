-- ===== src/Asm/Driver/Labels.antt =====
-- Labels in the passes of `c32_asm_assemble_file` in src/asm/c32asm.c.
use crisp.Base.{
  ℕ, zero, suc, ◌+◌, ◌^◌, ◌≤◌, ◌<◌, ◌≡◌, arith, true, false, if◌then◌else◌, List, Outcome, ok,
  ◌>>=◌, ltb-eq-true, ltb, ◌==◌,
}
use mathlib.Core.Path.{subst}
use crisp.Base.Int.{ℤ, pos, negsuc}
use crisp.Array.{Array}
use crisp.CString.{strcmp}
use crisp.CString.Search.{IsString}
use crisp.Base.Runs.{Returns-ok}
use crisp.Asm.Symbols.{AsmState, get_symbol, find_loop, find_symbol, is_zero, max_symbols}
use crisp.Asm.Symbols.Total.{IsState, Extends, IsIndex, find_symbol-Returns}
use crisp.Asm.Driver.{pass_loop}
use crisp.Asm.Driver.Passes.{AreLines, count, pass_loop-program_size}

-- A round that is followed by another rest.
round-kept :
    (c : Outcome ℤ) (i idx : ℕ) (rest rest' : Outcome ℤ)
    → (c >>= λ z. if is_zero z then ok (pos i) else rest) ≡ ok (pos idx)
    → (rest ≡ ok (pos idx) → rest' ≡ ok (pos idx))
    → (c >>= λ z. if is_zero z then ok (pos i) else rest') ≡ ok (pos idx)
round-kept (Outcome.ok (pos zero)) i idx rest rest' e next = e
round-kept (Outcome.ok (pos (suc n))) i idx rest rest' e next =
    let nonzero : (suc n == 0) ≡ false = ground arith in rw nonzero (next (rw nonzero at e))
round-kept (Outcome.ok (negsuc n)) i idx rest rest' e next = next e
round-kept Outcome.fault i idx rest rest' e next = absurd cc

module _ (s t : AsmState) (x : Extends s t) (name : Array) (few : s.num_symbols ≤ max_symbols)
    (idx : ℕ) where
  -- The first match stays the first match.
  find_loop-Extends :
      (left left' i : ℕ)
      → i + left ≡ s.num_symbols
      → left ≤ left'
      → find_loop s.symbols name left i ≡ ok (pos idx)
      → find_loop t.symbols name left' i ≡ ok (pos idx)
  unfolding find_loop get_symbol
  find_loop-Extends zero left' i end more e = absurd (cc e)
  find_loop-Extends (suc left) zero i end more e = absurd (omega arith)
  find_loop-Extends (suc left) (suc left') i end more e =
      let below : ltb i max_symbols ≡ true = ltb-eq-true (omega (arith, few)) in
      rw (below, x.names i (omega arith))
        (round-kept (strcmp (s.symbols i).name name) i idx (find_loop s.symbols name left (i + 1))
          (find_loop t.symbols name left' (i + 1)) (rw below at e)
          (find_loop-Extends left left' (i + 1) (omega arith) (omega arith)))

  find_symbol-Extends : find_symbol s name ≡ ok (pos idx) → find_symbol t name ≡ ok (pos idx)
  unfolding find_symbol
  find_symbol-Extends e = find_loop-Extends s.num_symbols t.num_symbols 0 (omega arith) x.grows e

-- A label that is found, at an entry that is defined, is found at the same entry with the same
-- address after a pass over any lines that are strings: what pass 1 defines first is what a later
-- line of either pass sees.
pub find_symbol-pass_loop :
    (s : AsmState) (lines : List Array) (name : Array) (n idx : ℕ)
    → IsState s
    → AreLines lines
    → s.errors + count lines < 2 ^ 31
    → IsString name n
    → find_symbol s name ≡ ok (pos idx)
    → (s.symbols idx).defined ≡ true
    → (t : AsmState) × (pass_loop s lines ≡ ok t)
      × (find_symbol t name ≡ ok (pos idx))
      × (t.symbols idx ≡ s.symbols idx)
find_symbol-pass_loop s lines name n idx w strings few string found defined =
    let (t, _, run, _, p) = pass_loop-program_size s lines w strings few in
    let (z, e, below) = Returns-ok (find_symbol-Returns name n string s w.table) in
    let same : z ≡ pos idx = cc in
    (
      t,
      run,
      find_symbol-Extends s t p.extends name w.table.few idx found,
      p.extends.fixed idx (subst (IsIndex s.num_symbols) same below) defined,
    )
