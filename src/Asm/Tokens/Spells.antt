-- ===== src/Asm/Tokens/Spells.antt =====
-- The words of a line of assembly, as `tokenize` of src/asm/c32_parser.c divides it.
use crisp.Base.{
  ℕ, zero, suc, ◌+◌, ◌-◌, ◌≤◌, ◌<◌, ◌≡◌, ◌≢◌, ◌==◌, ◌||◌, ltb, Bool, true, false, if◌then◌else◌,
  refl, arith, List, [], ◌∷◌, ok, Bool-cases, inl, inr,
}
use crisp.Array.{Array, load-ok}
use crisp.CString.Search.{IsString}
use crisp.Asm.Symbols.{max_label_len}
use crisp.CString.Same.{SameString}
use crisp.Asm.Tokens.{is_blank, skip_loop, skip_whitespace, Tokens}

-- The words stand in the tokens, from the one with number `i` on.
abbrev pub Holds : Tokens → ℕ → List Array → Type 0
Holds tokens i [] = Unit {0}
Holds tokens i (text ∷ texts) =
    ((m : ℕ) × SameString (tokens i) text m) × Holds tokens (i + 1) texts

-- Spaces and tabs; the end of the string, and what starts a comment; and what a word ends before,
-- these and commas.
abbrev pub is_space : ℕ → Bool
is_space c = c == b' ' || c == b'\t'

abbrev pub ends_line : ℕ → Bool
ends_line c = c == 0 || c == b';' || c == b'#'

abbrev pub ends_word : ℕ → Bool
ends_word c = ends_line c || is_space c || c == b','

module _ (line : Array) where
  -- Spaces and tabs from `p` up to `q`.
  pub record Blanks (p q : ℕ) : Type 0 where
    pub from : p ≤ q
    pub blanks : (k : ℕ) → p ≤ k → k < q → is_space (line.at k) ≡ true

  -- A word of `m` characters at `q`, as long as a token may be, and a delimiter behind it.
  pub record IsWord (q : ℕ) (text : Array) (m : ℕ) : Type 0 where
    pub string : IsString text m
    pub some : 0 < m
    pub short : m < max_label_len
    pub written : (k : ℕ) → k < m → line.at (q + k) ≡ text.at k
    pub solid : (k : ℕ) → k < m → ends_word (line.at (q + k)) ≡ false
    pub ended : ends_word (line.at (q + m)) ≡ true

  -- Behind a comma, if one stands there.
  abbrev pub behind : ℕ → ℕ
  behind p = if line.at p == b',' then p + 1 else p

  -- The words of the line from `p` on, up to its end or a comment.
  pub data Spells : ℕ → List Array → Type 0 where
    spells_end : {p q : ℕ} → Blanks p q → ends_line (line.at q) ≡ true → Spells p []
    spells_comma :
        {p q : ℕ} {texts : List Array}
        → Blanks p q
        → line.at q ≡ b','
        → Spells (q + 1) texts
        → Spells p texts
    spells_word :
        {p q m : ℕ} {text : Array} {texts : List Array}
        → Blanks p q
        → IsWord q text m
        → Spells (behind (q + m)) texts
        → Spells p (text ∷ texts)

module _ (line : Array) (n : ℕ) (string : IsString line n) where
  pub Blanks-inside : (p q : ℕ) → Blanks line p q → p ≤ n → q ≤ n
  Blanks-inside p q b h = elim (Bool-cases (ltb n q)) [
    | inl e ↦ absurd (ground (arith, b.blanks n, string.terminator))
    | inr e ↦ ground arith
  ]

  pub Word-inside : (q : ℕ) (text : Array) (m : ℕ) → IsWord line q text m → q ≤ n → q + m ≤ n
  Word-inside q text m w h = elim (Bool-cases (ltb n (q + m))) [
    | inl e ↦ absurd (
        let here : q + (n - q) ≡ n = omega arith in
        ground (arith, w.solid (n - q), string.terminator))
    | inr e ↦ ground arith
  ]

  skip_loop-Blanks :
      (left p q : ℕ)
      → Blanks line p q
      → q ≤ n
      → n < p + left
      → is_blank (line.at q) ≡ false
      → skip_loop line left p ≡ ok q
  unfolding skip_loop
  skip_loop-Blanks zero p q b h enough stop = absurd (omega (arith, b.from))
  skip_loop-Blanks (suc left) p q b h enough stop =
      rw (load-ok line p (omega (arith, b.from, string.room))) (elim (Bool-cases (p == q)) [
        | inl e ↦
            let here : p ≡ q = ground arith in
            let solid : is_blank (line.at p) ≡ false = rw here stop in rw (solid, here) refl
        | inr e ↦
            let less : p < q = ground (arith, b.from) in
            let blank : is_blank (line.at p) ≡ true = b.blanks p (omega arith) less in
            rw blank (
              skip_loop-Blanks left (p + 1) q
                (record { from = omega arith; blanks = λ k a c. b.blanks k (omega arith) c }) h
                (omega arith) stop)
      ])

  pub skip_whitespace-Blanks :
      (p q : ℕ)
      → p ≤ n
      → Blanks line p q
      → is_blank (line.at q) ≡ false
      → skip_whitespace line p ≡ ok q
  unfolding skip_whitespace
  skip_whitespace-Blanks p q h b stop =
      skip_loop-Blanks (line.size + 1) p q b (Blanks-inside p q b h) (omega (arith, string.room))
        stop

  -- Blanks, and what is not the end of the line, do not start with the end of the line.
  pub Blanks-open : (p q : ℕ) → Blanks line p q → line.at q ≢ 0 → (line.at p == 0) ≡ false
  Blanks-open p q b more = elim (Bool-cases (p == q)) [
    | inl e ↦ let here : p ≡ q = ground arith in rw here (ground arith)
    | inr e ↦ ground (arith, b.blanks p, b.from)
  ]
