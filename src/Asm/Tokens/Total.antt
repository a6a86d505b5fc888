-- ===== src/Asm/Tokens/Total.antt =====
-- Runs of `skip_whitespace` and `tokenize` on strings.
use crisp.Base.{
  ℕ, zero, suc, ◌+◌, ◌-◌, ◌≤◌, ◌<◌, ◌≡◌, ◌≢◌, ◌⊎◌, ◌==◌, ltb, not, ◌&&◌, true, false, if◌then◌else◌,
  arith, Outcome, Returns, returns, Bool-cases, inl, inr,
}
use crisp.Base.Runs.{Returns-bind, Returns-if, Returns-mono}
use crisp.Array.{Array, update, load-ok, store-ok}
use crisp.CString.Search.{IsString}
use crisp.Asm.Symbols.{max_label_len}
use crisp.Asm.Tokens.{
  is_blank, is_end, is_delimiter, skip_loop, skip_whitespace, Tokens, set_token, token_loop,
  read_token, tokenize_loop, tokenize,
}

-- A token so far: `k` characters in a buffer of `max_label_len`.
pub record IsToken (token : Array) (k : ℕ) : Type 0 where
  pub size : token.size ≡ max_label_len
  pub room : k < max_label_len
  pub characters : (j : ℕ) → j < k → token.at j ≢ 0

-- The first `count` of the tokens are strings.
pub record AreTokens (tokens : Tokens) (count : ℕ) : Type 0 where
  pub size : (i : ℕ) → (tokens i).size ≡ max_label_len
  pub strings : (i : ℕ) → i < count → (k : ℕ) × IsString (tokens i) k

module _ (line : Array) (n : ℕ) (string : IsString line n) where
  -- Where whitespace that starts at `p` ends.
  pub record Skipped (p q : ℕ) : Type 0 where
    pub from : p ≤ q
    pub inside : q ≤ n
    pub stopped : is_blank (line.at q) ≡ false

  skip_loop-Returns :
      (left p : ℕ) → p ≤ n → n < p + left → Returns (Skipped p) (skip_loop line left p)
  unfolding skip_loop
  skip_loop-Returns zero p h enough = absurd (omega arith)
  skip_loop-Returns (suc left) p h enough = rw (load-ok line p (omega (arith, string.room))) (
      Returns-if (is_blank (line.at p))
        (λ e.
          Returns-mono
            (skip_loop-Returns left (p + 1) (ground (arith, string.terminator)) (omega arith))
            λ q s. record { from = omega (arith, s.from); inside = s.inside; stopped = s.stopped })
        (λ e. returns (record { from = omega arith; inside = h; stopped = e })))

  pub skip_whitespace-Returns : (p : ℕ) → p ≤ n → Returns (Skipped p) (skip_whitespace line p)
  unfolding skip_whitespace
  skip_whitespace-Returns p h = skip_loop-Returns (line.size + 1) p h (omega (arith, string.room))

  -- Where a token that starts at `p` ends, and what it is.
  record Ended (p : ℕ) (r : ℕ × ℕ × Array) : Type 0 where
    from : p ≤ r.0
    inside : r.0 ≤ n
    delimited : is_delimiter (line.at r.0) ≡ true
    token : IsToken r.2 r.1
    moved : (is_delimiter (line.at p) ≡ true) ⊎ (p < r.0)

  pushed-IsToken :
      (token : Array) (k c : ℕ)
      → IsToken token k
      → k < max_label_len - 1
      → c ≢ 0
      → IsToken (record token { at = update token.at k c }) (k + 1)
  pushed-IsToken token k c t h nz = record {
    size = t.size;
    room = omega arith;
    characters = λ j below. ground (arith, t.characters j);
  }

  token_loop-Returns :
      (left p k : ℕ) (token : Array)
      → p ≤ n
      → n < p + left
      → IsToken token k
      → Returns (Ended p) (token_loop line left p k token)
  unfolding token_loop
  token_loop-Returns zero p k token h enough t = absurd (omega arith)
  token_loop-Returns (suc left) p k token h enough t =
      rw (load-ok line p (omega (arith, string.room))) (
        Returns-if (is_delimiter (line.at p))
          (λ e.
            returns
              (record { from = omega arith; inside = h; delimited = e; token = t; moved = inl e }))
          (λ e.
            Returns-if (ltb k (max_label_len - 1))
              (λ fits. rw (store-ok token k (line.at p) (omega (arith, t.size, t.room))) (
                later p (
                  token_loop-Returns left (p + 1) (k + 1) _ (inside e) (omega arith)
                    (pushed-IsToken token k (line.at p) t (ground arith) (ground arith)))))
              (λ full.
                later p (token_loop-Returns left (p + 1) k token (inside e) (omega arith) t))))
    where
      inside : is_delimiter (line.at p) ≡ false → p + 1 ≤ n
      inside e = ground (arith, string.terminator)

      later :
          (p : ℕ) {m : Outcome (ℕ × ℕ × Array)} → Returns (Ended (p + 1)) m → Returns (Ended p) m
      later p r = Returns-mono r λ t e. record {
        from = omega (arith, e.from);
        inside = e.inside;
        delimited = e.delimited;
        token = e.token;
        moved = inr (omega (arith, e.from));
      }

  -- A round of the outer loop: the cursor moves on, and at most one token is added.
  record Read (p count : ℕ) (r : ℕ × ℕ × Tokens) : Type 0 where
    forward : p < r.0
    inside : r.0 ≤ n
    least : count ≤ r.1
    most : r.1 ≤ count + 1
    tokens : AreTokens r.2 r.1

  -- A token that is closed by its terminator is a string.
  closed-IsString :
      (token : Array) (k : ℕ)
      → IsToken token k
      → IsString (record token { at = update token.at k 0 }) k
  closed-IsString token k t = record {
    room = omega (arith, t.size, t.room);
    terminator = ground arith;
    characters = λ j below. ground (arith, t.characters j);
  }

  set_token-AreTokens :
      (tokens : Tokens) (count k : ℕ) (token : Array)
      → AreTokens tokens count
      → IsToken token k
      → AreTokens
          (set_token tokens count (record token { at = update token.at k 0 }))
          (if ltb 0 k then count + 1 else count)
  set_token-AreTokens tokens count k token ts t = record {
    size = λ i. ground (arith, ts.size i, t.size);
    strings = λ i below. elim (Bool-cases (i == count)) [
      | inl e ↦ rw e (k, closed-IsString token k t)
      | inr e ↦ rw e (ts.strings i (ground arith))
    ];
  }

  read_token-Returns :
      (p count : ℕ) (tokens : Tokens)
      → p ≤ n
      → is_end (line.at p) ≡ false
      → is_blank (line.at p) ≡ false
      → AreTokens tokens count
      → Returns (Read p count) (read_token line p count tokens)
  unfolding read_token
  read_token-Returns p count tokens h more solid ts =
      Returns-bind
        (token_loop-Returns (line.size + 1) p 0 (tokens count) h (omega (arith, string.room))
          (record {
            size = ts.size count;
            room = omega arith;
            characters = λ j below. absurd (omega arith);
          }))
        λ (q, k, token) e.
          rw
            (
              store-ok token k 0 (omega (arith, e.token.size, e.token.room)),
              load-ok line q (omega (arith, string.room, e.inside)),
            )
            (returns (record {
              forward = ground (arith, e.from, e.moved);
              inside = ground (arith, string.terminator);
              least = ground arith;
              most = ground arith;
              tokens = set_token-AreTokens tokens count k token ts e.token;
            }))

  tokenize_loop-Returns :
      (max_tokens left p count : ℕ) (tokens : Tokens)
      → p ≤ n
      → n < p + left
      → count ≤ max_tokens
      → AreTokens tokens count
      → Returns
          (λ r. (r.0 ≤ max_tokens) × AreTokens r.1 r.0)
          (tokenize_loop line max_tokens left p count tokens)
  unfolding tokenize_loop
  tokenize_loop-Returns max_tokens zero p count tokens h enough few ts = absurd (omega arith)
  tokenize_loop-Returns max_tokens (suc left) p count tokens h enough few ts =
      rw (load-ok line p (omega (arith, string.room))) (
        Returns-if (not (line.at p == 0) && ltb count max_tokens)
          (λ open_. Returns-bind (skip_whitespace-Returns p h) λ q s.
            rw (load-ok line q (omega (arith, string.room, s.inside))) (
              Returns-if (is_end (line.at q)) (λ _. returns (few, ts))
                (λ more.
                  Returns-bind (read_token-Returns q count tokens s.inside more s.stopped ts)
                    λ (p', count', tokens') r.
                      tokenize_loop-Returns max_tokens left p' count' tokens' r.inside
                        (omega (arith, s.from, r.forward)) (ground (arith, r.most)) r.tokens)))
          (λ _. returns (few, ts)))

  -- tokenize
  pub tokenize-Returns :
      (p : ℕ) (tokens : Tokens) (max_tokens : ℕ)
      → p ≤ n
      → ((i : ℕ) → (tokens i).size ≡ max_label_len)
      → Returns (λ r. (r.0 ≤ max_tokens) × AreTokens r.1 r.0) (tokenize line p tokens max_tokens)
  unfolding tokenize
  tokenize-Returns p tokens max_tokens h sizes =
      tokenize_loop-Returns max_tokens (line.size + 1) p 0 tokens h (omega (arith, string.room))
        (omega arith) (record { size = sizes; strings = λ i below. absurd (omega arith) })
