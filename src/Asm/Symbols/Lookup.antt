-- ===== src/Asm/Symbols/Lookup.antt =====
-- `c32_asm_add_symbol` and `c32_asm_find_symbol` together.
use crisp.Base.{
  ℕ, zero, suc, ◌+◌, ◌≤◌, ◌<◌, ◌≡◌, ◌⊎◌, refl, ◌∙◌, ap, arith, true, false, ltb, leb, if◌then◌else◌,
  Outcome, ok, ◌>>=◌, ltb-eq-true, ◌==◌, ◌||◌,
}
use crisp.Base.Int.{ℤ, pos, negsuc}
use crisp.Array.{Array}
use crisp.CString.{strcmp}
use crisp.CString.Search.{IsString, strlen-IsString}
use crisp.CString.Strings.{copied, strcpy-copied, copied-IsString, strcmp-same}
use crisp.Asm.Symbols.{
  Symbol, AsmState, get_symbol, set_symbol, replace, is_zero, find_loop, find_symbol, add_found,
  add_symbol, max_symbols, max_label_len,
}

-- A round that did not end the search with an index did not look at the rest.
round-missed :
    (c : Outcome ℤ) (i : ℕ) (rest : Outcome ℤ)
    → (c >>= λ z. if is_zero z then ok (pos i) else rest) ≡ ok (negsuc 0)
    → (rest ≡ ok (negsuc 0))
      × ((k : Outcome ℤ) → (c >>= λ z. if is_zero z then ok (pos i) else k) ≡ k)
round-missed (Outcome.ok (pos zero)) i rest e = absurd cc
round-missed (Outcome.ok (pos (suc n))) i rest e =
    let nonzero : (suc n == 0) ≡ false = ground arith in (rw nonzero at e, λ k. rw nonzero refl)
round-missed (Outcome.ok (negsuc n)) i rest e = (e, λ k. refl)
round-missed Outcome.fault i rest e = absurd cc

module _ (symbols : ℕ → Symbol) (name : Array) (entry : Symbol) where
  replace-same : (n : ℕ) → replace symbols n entry n ≡ entry
  replace-same n = ground arith

  replace-other : (n i : ℕ) → i < n → replace symbols n entry i ≡ symbols i
  replace-other n i h = ground arith

  -- A search that finds nothing goes on to an entry that is added behind.
  find_loop-added :
      (n left i : ℕ)
      → i + left ≡ n
      → n < max_symbols
      → strcmp entry.name name ≡ ok (pos 0)
      → find_loop symbols name left i ≡ ok (negsuc 0)
      → find_loop (replace symbols n entry) name (suc left) i ≡ ok (pos n)
  unfolding find_loop get_symbol
  find_loop-added n zero i end room same e =
      let here : i ≡ n = omega arith in rw (here, ltb-eq-true room, replace-same n, same) refl
  find_loop-added n (suc left) i end room same e =
      let below : ltb i max_symbols ≡ true = ltb-eq-true (omega arith) in
      let (rest, missed) =
        round-missed (strcmp (symbols i).name name) i (find_loop symbols name left (i + 1))
          (rw below at e) in
      rw (below, replace-other n i (omega arith))
        (missed _ ∙ find_loop-added n left (i + 1) (omega arith) room same rest)

-- The state after a new label is added behind the others.
abbrev with_label : AsmState → Array → ℕ → ℕ → AsmState
with_label state name n address = record state {
  symbols = replace state.symbols state.num_symbols (record {
    name = record ((state.symbols state.num_symbols).name) {
      at = copied (state.symbols state.num_symbols).name.at name.at n;
    };
    address = address;
    defined = true;
  });
  num_symbols = state.num_symbols + 1;
}

module _ (state : AsmState) (name : Array) (n address : ℕ) (string : IsString name n) where
  -- A label without characters, or of 64 or more, is refused with -1, and the state is left alone.
  pub add_symbol-refused :
      (n ≡ 0) ⊎ (max_label_len ≤ n) → add_symbol state name address ≡ ok (negsuc 0, state)
  unfolding add_symbol
  add_symbol-refused bad = rw (strlen-IsString name n string) (ground arith)

  add_symbol-found :
      0 < n
      → n < max_label_len
      → (idx : ℤ) → find_symbol state name ≡ ok idx
      → add_symbol state name address ≡ add_found state name address idx
  unfolding add_symbol
  add_symbol-found some short idx e = rw (strlen-IsString name n string, proper, e) refl
    where
      proper : (n == 0 || leb max_label_len n) ≡ false
      proper = ground arith

  -- A label with 1 to 63 characters that the table does not have is added to a table that is not
  -- full, at the next index, if the next entry has room for 64 characters, and a search in the new
  -- table finds that index.
  pub find_symbol-add_symbol :
      0 < n
      → n < max_label_len
      → find_symbol state name ≡ ok (negsuc 0)
      → state.num_symbols < max_symbols
      → (state.symbols state.num_symbols).name.size ≡ max_label_len
      → (state' : AsmState) × (add_symbol state name address ≡ ok (pos state.num_symbols, state'))
        × (find_symbol state' name ≡ ok (pos state.num_symbols))
  unfolding add_found get_symbol set_symbol find_symbol
  find_symbol-add_symbol some short new room size = (
    with_label state name n address,
    add_symbol-found some short (negsuc 0) new ∙ added,
    ap (λ k. find_loop (with_label state name n address).symbols name k 0)
          {x = state.num_symbols + 1} {y = suc state.num_symbols} (omega arith)
        ∙ find_loop-added state.symbols name _ state.num_symbols state.num_symbols 0 (omega arith)
            room equal new,
  )
    where
      not_full : leb max_symbols state.num_symbols ≡ false
      not_full = ground arith

      added :
          add_found state name address (negsuc 0)
          ≡ ok (pos state.num_symbols, with_label state name n address)
      added =
          rw
            (
              not_full,
              ltb-eq-true room,
              strcpy-copied name n string (state.symbols state.num_symbols).name (omega arith),
            )
            refl

      equal :
          strcmp
            (record ((state.symbols state.num_symbols).name) {
              at = copied (state.symbols state.num_symbols).name.at name.at n;
            })
            name
          ≡ ok (pos 0)
      equal =
          strcmp-same _ name n
            (copied-IsString name n string (state.symbols state.num_symbols).name (omega arith))
            string (λ k h. ground arith)
