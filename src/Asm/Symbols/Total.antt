-- ===== src/Asm/Symbols/Total.antt =====
-- Well-formed states of the assembler, and the runs of `c32_asm_find_symbol` and
-- `c32_asm_add_symbol` on them.
use crisp.Base.{
  ℕ, zero, suc, ◌+◌, ◌^◌, ◌≤◌, ◌<◌, ◌≡◌, ◌⊎◌, ◌==◌, ◌||◌, leb, refl, ap, sym, ◌∙◌, arith, true,
  false, Returns, returns, Bool-cases, inl, inr, ltb-eq-true,
}
use crisp.Base.Int.{ℤ, pos, negsuc}
use crisp.Base.Runs.{Returns-bind, Returns-if}
use crisp.Array.{Array}
use crisp.CString.Search.{IsString, strlen-IsString}
use crisp.CString.Strings.{strcpy-copied, copied-IsString}
use crisp.CString.Total.{strcmp-Returns}
use crisp.Vm.Memory.Laws.{AreBytes}
use crisp.Asm.Symbols.{
  Symbol, AsmState, get_symbol, set_symbol, replace, is_zero, find_loop, find_symbol, add_found,
  add_symbol, max_symbols, max_label_len, max_output_size,
}

-- The entries in use have names that are strings, and all have room for one.
pub record IsTable (symbols : ℕ → Symbol) (num_symbols : ℕ) : Type 0 where
  pub few : num_symbols ≤ max_symbols
  pub room : (i : ℕ) → (symbols i).name.size ≡ max_label_len
  pub names : (i : ℕ) → i < num_symbols → (k : ℕ) × IsString (symbols i).name k
  pub addresses : (i : ℕ) → i < num_symbols → (symbols i).address < 2 ^ 32

pub record IsState (state : AsmState) : Type 0 where
  pub table : IsTable state.symbols state.num_symbols
  pub address : state.current_address < 2 ^ 32
  pub bytes : AreBytes state.output
  pub output : state.output.size ≡ max_output_size
  pub written : state.output_size ≤ max_output_size

-- The index of an entry in use, or a negative number.
abbrev pub IsIndex : ℕ → ℤ → Type 0
IsIndex num_symbols (pos i) = i < num_symbols
IsIndex num_symbols (negsuc n) = Unit {0}

module _ (name : Array) (k : ℕ) (string : IsString name k) where
  find_loop-Returns :
      (symbols : ℕ → Symbol) (num_symbols : ℕ)
      → IsTable symbols num_symbols
      → (left i : ℕ) → i + left ≡ num_symbols
      → Returns (IsIndex num_symbols) (find_loop symbols name left i)
  unfolding find_loop get_symbol
  find_loop-Returns symbols num_symbols t zero i end = returns tt
  find_loop-Returns symbols num_symbols t (suc left) i end =
      let (m, s) = t.names i (omega arith) in
      rw (ltb-eq-true {a = i} {b = max_symbols} (omega (arith, t.few))) (
        Returns-bind (strcmp-Returns (symbols i).name name m k s string) λ z _.
          Returns-if (is_zero z) (λ _. returns (omega arith))
            (λ _. find_loop-Returns symbols num_symbols t left (i + 1) (omega arith)))

  pub find_symbol-Returns :
      (state : AsmState)
      → IsTable state.symbols state.num_symbols
      → Returns (IsIndex state.num_symbols) (find_symbol state name)
  unfolding find_symbol
  find_symbol-Returns state t =
      find_loop-Returns state.symbols state.num_symbols t state.num_symbols 0 (omega arith)

-- The table grows: names stay, and so do entries that are defined.
pub record Extends (state state' : AsmState) : Type 0 where
  pub grows : state.num_symbols ≤ state'.num_symbols
  pub names : (k : ℕ) → k < state.num_symbols → (state'.symbols k).name ≡ (state.symbols k).name
  pub fixed :
      (k : ℕ)
      → k < state.num_symbols
      → (state.symbols k).defined ≡ true
      → state'.symbols k ≡ state.symbols k

pub Extends-refl : (state : AsmState) → Extends state state
Extends-refl state = record { grows = omega arith; names = λ k h. refl; fixed = λ k h d. refl }

pub Extends-trans : (s t u : AsmState) → Extends s t → Extends t u → Extends s u
Extends-trans s t u a b = record {
  grows = omega (arith, a.grows, b.grows);
  names = λ k h. b.names k (omega (arith, h, a.grows)) ∙ a.names k h;
  fixed = λ k h d.
      b.fixed k (omega (arith, h, a.grows)) (ap (λ e. e.defined) (a.fixed k h d) ∙ d)
      ∙ a.fixed k h d;
}

-- A state that differs in its symbols only.
pub record Relabelled (state state' : AsmState) : Type 0 where
  pub table : IsTable state'.symbols state'.num_symbols
  pub address : state'.current_address ≡ state.current_address
  pub output : state'.output ≡ state.output
  pub output_size : state'.output_size ≡ state.output_size
  pub pass : state'.pass ≡ state.pass
  pub errors : state'.errors ≡ state.errors
  pub extends : Extends state state'

-- An entry that is not defined yet becomes so, and a new one is appended.
defined-Extends :
    (state : AsmState) (idx address : ℕ)
    → idx < state.num_symbols
    → (state.symbols idx).defined ≡ false
    → Extends state (record state {
      symbols =
          replace state.symbols idx
            (record (state.symbols idx) { address = address; defined = true });
    })
defined-Extends state idx address below undefined = record {
  grows = omega arith;
  names = λ k h. elim (Bool-cases (k == idx)) [
    | inl e ↦
        let same : k ≡ idx = ground arith in rw e (ap (λ j. (state.symbols j).name) (sym same))
    | inr e ↦ rw e refl
  ];
  fixed = λ k h d. elim (Bool-cases (k == idx)) [
    | inl e ↦
        let same : k ≡ idx = ground arith in
        absurd (cc (sym d ∙ ap (λ j. (state.symbols j).defined) same ∙ undefined))
    | inr e ↦ rw e refl
  ];
}

added-Extends :
    (state : AsmState) (entry : Symbol)
    → Extends state (record state {
      symbols = replace state.symbols state.num_symbols entry;
      num_symbols = state.num_symbols + 1;
    })
added-Extends state entry = record {
  grows = omega arith;
  names = λ k h. let other : (k == state.num_symbols) ≡ false = ground arith in rw other refl;
  fixed = λ k h d. let other : (k == state.num_symbols) ≡ false = ground arith in rw other refl;
}

with_entry-IsTable :
    (symbols : ℕ → Symbol) (num_symbols idx count m : ℕ) (entry : Symbol)
    → IsTable symbols num_symbols
    → entry.name.size ≡ max_label_len
    → IsString entry.name m
    → entry.address < 2 ^ 32
    → count ≤ max_symbols
    → idx < count
    → ((i : ℕ) → i < count → (i ≡ idx) ⊎ (i < num_symbols))
    → IsTable (replace symbols idx entry) count
with_entry-IsTable symbols num_symbols idx count m entry t size string word few below old = record {
  few = few;
  room = λ i. ground (arith, t.room i);
  names = λ i h. elim (Bool-cases (i == idx)) [
    | inl e ↦ rw e (m, string)
    | inr e ↦ rw e (t.names i (ground (arith, old i h)))
  ];
  addresses = λ i h. ground (arith, old i h, t.addresses i);
}

module _ (name : Array) (k : ℕ) (string : IsString name k) (short : k < max_label_len) (address : ℕ)
    (word : address < 2 ^ 32) where
  add_found-Returns :
      (state : AsmState) (idx : ℤ)
      → IsTable state.symbols state.num_symbols
      → IsIndex state.num_symbols idx
      → Returns (λ r. Relabelled state r.1) (add_found state name address idx)
  unfolding add_found get_symbol set_symbol
  add_found-Returns state (pos idx) t below =
      let (m, s) = t.names idx below in
      rw (ltb-eq-true {a = idx} {b = max_symbols} (omega (arith, t.few))) (
        Returns-if (state.symbols idx).defined
          (λ _. returns (record {
            table = t;
            address = refl;
            output = refl;
            output_size = refl;
            pass = refl;
            errors = refl;
            extends = Extends-refl state;
          }))
          (λ undefined. returns (record {
            table =
                with_entry-IsTable state.symbols state.num_symbols idx state.num_symbols m _ t
                  (t.room idx) s word t.few below (λ i h. inr h);
            address = refl;
            output = refl;
            output_size = refl;
            pass = refl;
            errors = refl;
            extends = defined-Extends state idx address below undefined;
          })))
  add_found-Returns state (negsuc n) t below =
      Returns-if (leb max_symbols state.num_symbols)
        (λ _. returns (record {
          table = t;
          address = refl;
          output = refl;
          output_size = refl;
          pass = refl;
          errors = refl;
          extends = Extends-refl state;
        }))
        (λ e.
          rw
            (
              ltb-eq-true {a = state.num_symbols} {b = max_symbols} (ground arith),
              strcpy-copied name k string (state.symbols state.num_symbols).name
                  (omega (arith, t.room state.num_symbols)),
            )
            (returns (record {
              table =
                  with_entry-IsTable state.symbols state.num_symbols state.num_symbols
                    (state.num_symbols + 1) k _ t (t.room state.num_symbols)
                    (copied-IsString name k string (state.symbols state.num_symbols).name
                      (omega (arith, t.room state.num_symbols)))
                    word (ground arith) (omega arith) (λ i h. ground arith);
              address = refl;
              output = refl;
              output_size = refl;
              pass = refl;
              errors = refl;
              extends = added-Extends state _;
            })))

  pub add_symbol-Returns :
      (state : AsmState)
      → IsTable state.symbols state.num_symbols
      → Returns (λ r. Relabelled state r.1) (add_symbol state name address)
  unfolding add_symbol
  add_symbol-Returns state t = rw (strlen-IsString name k string) (
      Returns-if (k == 0 || leb max_label_len k)
        (λ _. returns (record {
          table = t;
          address = refl;
          output = refl;
          output_size = refl;
          pass = refl;
          errors = refl;
          extends = Extends-refl state;
        }))
        (λ _.
          Returns-bind (find_symbol-Returns name k string state t)
            λ idx below. add_found-Returns state idx t below))
