-- ===== src/Asm/Tokens/Words.antt =====
-- `tokenize` of src/asm/c32_parser.c on the words of a line.
use crisp.Base.{
  length, ℕ, zero, suc, ◌+◌, ◌-◌, ◌≤◌, ◌<◌, ◌≡◌, ◌==◌, ltb, not, ◌&&◌, true, false, refl, arith,
  List, [], ◌∷◌, Returns, returns, ok, Bool-cases, inl, inr,
}
use crisp.Base.Runs.{Returns-bind, Returns-if, Returns-mono}
use crisp.Array.{Array, update, load-ok, store-ok}
use crisp.CString.Search.{IsString}
use crisp.Asm.Symbols.{max_label_len}
use crisp.CString.Same.{SameString}
use crisp.Asm.Tokens.{
  is_blank, is_end, is_delimiter, Tokens, set_token, token_loop, read_token, tokenize_loop,
  tokenize, blank_tokens,
}
use crisp.Asm.Tokens.Spells.{
  IsWord, behind, Spells, spells_end, spells_comma, spells_word, Holds, Blanks-inside, Word-inside,
  Blanks-open, skip_whitespace-Blanks,
}

module _ (line : Array) (n : ℕ) (string : IsString line n) where
  -- The cursor, the length and the buffer behind a word.
  record Taken (q : ℕ) (text : Array) (m : ℕ) (r : ℕ × ℕ × Array) : Type 0 where
    cursor : r.0 ≡ q + m
    length : r.1 ≡ m
    size : r.2.size ≡ max_label_len
    characters : (j : ℕ) → j < m → r.2.at j ≡ text.at j

  token_loop-Taken :
      (q : ℕ) (text : Array) (m : ℕ)
      → IsWord line q text m
      → q + m ≤ n
      → (left p k : ℕ) (token : Array) → p ≡ q + k
      → k ≤ m
      → n < p + left
      → token.size ≡ max_label_len
      → ((j : ℕ) → j < k → token.at j ≡ text.at j)
      → Returns (Taken q text m) (token_loop line left p k token)
  unfolding token_loop
  token_loop-Taken q text m w h zero p k token at h' enough size same = absurd (omega arith)
  token_loop-Taken q text m w h (suc left) p k token at h' enough size same =
      rw (at, load-ok line (q + k) (omega (arith, string.room)))
        (elim (Bool-cases (k == m)) [
          | inl e ↦
              let last : k ≡ m = ground arith in
              rw (last, w.ended)
                (returns (record {
                  cursor = refl;
                  length = refl;
                  size = size;
                  characters = λ j below. same j (omega arith);
                }))
          | inr e ↦
              let less : k < m = ground arith in
              let fits : ltb k (max_label_len - 1) ≡ true = ground (arith, w.short) in
              rw (w.solid k less, fits, store-ok token k (line.at (q + k)) (omega (arith, w.short)))
                (token_loop-Taken q text m w h left (q + k + 1) (k + 1) _ (omega arith)
                  (omega arith) (omega arith) size
                  (λ j below. ground (arith, same j, w.written k less)))
        ])

  read_token-Taken :
      (q : ℕ) (text : Array) (m : ℕ)
      → IsWord line q text m
      → q + m ≤ n
      → (count : ℕ) (tokens : Tokens) → (tokens count).size ≡ max_label_len
      → Returns
          (λ r.
            (r.0 ≡ behind line (q + m))
            × (r.1 ≡ count + 1)
            × (token : Array) × SameString token text m
            × (token.size ≡ max_label_len)
            × (r.2 ≡ set_token tokens count token))
          (read_token line q count tokens)
  unfolding read_token
  read_token-Taken q text m w h count tokens size =
      Returns-bind
        (token_loop-Taken q text m w h (line.size + 1) q 0 (tokens count) (omega arith)
          (omega arith) (omega (arith, string.room)) size (λ j below. absurd (omega arith)))
        λ (p, k, token) t.
          let some : ltb 0 m ≡ true = ground (arith, w.some) in
          let last : Array = record token { at = update token.at m 0 } in
          rw
            (
              t.length,
              t.cursor,
              store-ok token m 0 (omega (arith, t.size, w.short)),
              load-ok line (q + m) (omega (arith, string.room)),
              some,
            )
            (returns (
              refl,
              refl,
              last,
              record {
                left = record {
                  room = omega (arith, t.size, w.short);
                  terminator = ground arith;
                  characters = λ j below. ground (arith, t.characters j, w.string.characters j);
                };
                right = w.string;
                characters = λ j below. ground (arith, t.characters j);
              },
              t.size,
              refl,
            ))

  -- The tokens after the line: the old ones, and the words.
  record Tokenized (tokens : Tokens) (count : ℕ) (texts : List Array) (r : ℕ × Tokens)
      : Type 0 where
    total : r.0 ≡ count + length texts
    kept : (i : ℕ) → i < count → r.1 i ≡ tokens i
    holds : Holds r.1 count texts

  full-Tokenized :
      (tokens : Tokens) (count : ℕ) (texts : List Array)
      → length texts ≡ 0
      → Tokenized tokens count texts (count, tokens)
  full-Tokenized tokens count [] none = record {
    total = omega arith;
    kept = λ i h. refl;
    holds = tt;
  }
  full-Tokenized tokens count (text ∷ texts) none = absurd (omega arith)

  token_loop-delimiter :
      (left q : ℕ) (token : Array)
      → 0 < left
      → q ≤ n
      → is_delimiter (line.at q) ≡ true
      → token_loop line left q 0 token ≡ ok (q, 0, token)
  unfolding token_loop
  token_loop-delimiter zero q token some h e = absurd (omega arith)
  token_loop-delimiter (suc left) q token some h e =
      rw (load-ok line q (omega (arith, string.room)), e) refl

  -- The round of the outer loop at an empty word.
  read_token-comma :
      (q count : ℕ) (tokens : Tokens)
      → q ≤ n
      → line.at q ≡ b','
      → (tokens count).size ≡ max_label_len
      → read_token line q count tokens
        ≡ ok (
          q + 1,
          count,
          set_token tokens count (record (tokens count) { at = update (tokens count).at 0 0 }),
        )
  unfolding read_token
  read_token-comma q count tokens h comma size =
      rw
        (
          token_loop-delimiter (line.size + 1) q (tokens count) (omega arith) h (ground arith),
          store-ok (tokens count) 0 0 (omega arith),
          load-ok line q (omega (arith, string.room)),
          comma,
        )
        refl

  tokenize_loop-Spells :
      (left count : ℕ) (tokens : Tokens) {texts : List Array} {p : ℕ}
      → Spells line p texts
      → p ≤ n
      → n < p + left
      → count + length texts ≤ 8
      → ((i : ℕ) → (tokens i).size ≡ max_label_len)
      → Returns (Tokenized tokens count texts) (tokenize_loop line 8 left p count tokens)
  unfolding tokenize_loop
  tokenize_loop-Spells zero count tokens sp h enough few sizes = absurd (omega arith)
  tokenize_loop-Spells (suc left) count tokens (spells_end {p = p} {q = q} b e) h enough few sizes =
      rw
        (
          load-ok line p (omega (arith, string.room)),
          skip_whitespace-Blanks line n string p q h b (ground arith),
          load-ok line q (omega (arith, string.room, Blanks-inside line n string p q b h)),
          e,
        )
        (Returns-if (not (line.at p == 0) && ltb count 8)
          (λ _. returns (full-Tokenized tokens count [] refl))
          (λ _. returns (full-Tokenized tokens count [] refl)))
  tokenize_loop-Spells (suc left) count tokens
        (spells_comma {p = p} {q = q} {texts = texts} b e rest) h enough few sizes =
      rw
        (
          load-ok line p (omega (arith, string.room)),
          skip_whitespace-Blanks line n string p q h b (ground arith),
          load-ok line q (omega (arith, string.room, Blanks-inside line n string p q b h)),
          Blanks-open line n string p q b (omega arith),
          e,
          read_token-comma q count tokens (Blanks-inside line n string p q b h) e (sizes count),
        )
        (Returns-if (ltb count 8)
          (λ _.
            Returns-mono
              (tokenize_loop-Spells left count _ rest
                (ground (arith, string.terminator, Blanks-inside line n string p q b h))
                (omega (arith, b.from)) few (λ i. ground (arith, sizes i)))
              λ r t. record {
                total = t.total;
                kept = λ i below. ground (arith, t.kept i below);
                holds = t.holds;
              })
          (λ full. returns (full-Tokenized tokens count texts (ground arith))))
  tokenize_loop-Spells (suc left) count tokens
        (spells_word {p = p} {q = q} {m = m} {text = text} {texts = texts} b w rest) h enough few
        sizes =
      let first : is_delimiter (line.at q) ≡ false = ground (arith, w.solid 0, w.some) in
      let inside : q ≤ n = Blanks-inside line n string p q b h in
      let below : ltb count 8 ≡ true = ground arith in
      let blank : is_blank (line.at q) ≡ false = ground arith in
      let more : is_end (line.at q) ≡ false = ground arith in
      rw
        (
          load-ok line p (omega (arith, string.room)),
          skip_whitespace-Blanks line n string p q h b blank,
          load-ok line q (omega (arith, string.room)),
          Blanks-open line n string p q b (ground arith),
          below,
          more,
        )
        (Returns-bind
          (read_token-Taken q text m w (Word-inside line n string q text m w inside) count tokens
            (sizes count))
          λ (p', count', tokens') (cursor, total, token, same, size, set).
            rw (cursor, total, set)
              (Returns-mono
                (tokenize_loop-Spells left (count + 1) (set_token tokens count token) rest
                  (ground (arith, string.terminator, Word-inside line n string q text m w inside))
                  (ground (arith, b.from, w.some)) (omega arith) (λ i. ground (arith, sizes i)))
                λ r t.
                  let here : r.1 count ≡ token = ground (arith, t.kept count) in
                  record {
                    total = omega (arith, t.total);
                    kept = λ i earlier. ground (arith, t.kept i);
                    holds = ((m, rw here same), t.holds);
                  }))

  -- Up to eight words of a line, short enough for a token each, are the tokens of the line.
  pub tokenize-Spells :
      {texts : List Array} (p : ℕ)
      → Spells line p texts
      → p ≤ n
      → length texts ≤ 8
      → Returns (λ r. (r.0 ≡ length texts) × Holds r.1 0 texts) (tokenize line p blank_tokens 8)
  unfolding tokenize
  tokenize-Spells p words h few =
      Returns-mono
        (tokenize_loop-Spells (line.size + 1) 0 blank_tokens words h (omega (arith, string.room))
          (omega arith) (λ i. refl))
        λ r t. (omega (arith, t.total), t.holds)
