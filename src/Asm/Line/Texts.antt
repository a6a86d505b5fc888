-- ===== src/Asm/Line/Texts.antt =====
-- `c32_asm_assemble_line` of src/asm/c32_parser.c on lines that write an instruction.
use crisp.Base.{
  length, ℕ, zero, suc, ◌+◌, ◌-◌, ◌≤◌, ◌<◌, ◌≡◌, ◌==◌, ltb, leb, not, ◌&&◌, Bool, true, false, refl,
  arith, List, ◌∷◌, some, ok, u8, Bool-cases, inl, inr,
}
use crisp.Base.Runs.{Returns-ok}
use crisp.Base.Int.{pos}
use crisp.Array.{Array, load-ok, store-ok}
use crisp.CString.Search.{IsString}
use crisp.CString.Literal.{literal}
use crisp.CString.Same.{SameString, SameString-trans, SameString-sized}
use crisp.CString.Copy.{splice, memcpy-splice}
use crisp.Vm.Opcode.{Opcode, code}
use crisp.Vm.Instruction.{Instruction}
use crisp.Asm.Symbols.{AsmState, max_label_len}
use crisp.Asm.Mnemonics.{parse_opcode}
use crisp.Asm.Mnemonics.Names.{mnemonic, parse_opcode-mnemonic, code-lt}
use crisp.Asm.Tokens.{is_blank, is_end, is_delimiter}
use crisp.Asm.Tokens.Spells.{
  is_space, ends_line, Blanks, Spells, spells_comma, spells_word, Blanks-inside,
  skip_whitespace-Blanks,
}
use crisp.Asm.Tokens.Words.{tokenize-Spells}
use crisp.Asm.Operands.{Form}
use crisp.Asm.Operands.Formats.{format, form_of-format}
use crisp.Asm.Operands.Texts.{Operands, operands-Operands, min_tokens-Operands}
use crisp.Asm.Line.{
  label_loop, define_label, emit, assemble_opcode, assemble_instruction, assemble_from,
  assemble_line,
}

-- The name of an opcode and its operands, as words, and the instruction they stand for.
pub data Writes (s : AsmState) : List Array → Instruction → Type 0 where
  writes :
      (op : Opcode) {form : Form} {name : Array} {m : ℕ} {texts : List Array} {inst : Instruction}
      → format op ≡ some form
      → SameString name (literal (mnemonic op)) m
      → Operands s (code op) form texts inst
      → Writes s (name ∷ texts) inst

-- A character of a label.
abbrev pub is_label : ℕ → Bool
is_label c = not (c == 0) && not (c == b':') && not (is_space c)

module _ (line : Array) where
  -- From `q` to `e` such characters, and behind them none; blanks before.
  pub record Run (q e : ℕ) : Type 0 where
    pub blanks : Blanks line 0 q
    pub some : q < e
    pub solid : ends_line (line.at q) ≡ false
    pub characters : (k : ℕ) → q ≤ k → k < e → is_label (line.at k) ≡ true
    pub ended : is_label (line.at e) ≡ false

  -- Where the instruction of the line starts: at the start of the line, or behind a label and its
  -- colon.
  pub data Starts : ℕ → Type 0 where
    unlabelled : {q e : ℕ} → Run q e → (line.at e == b':') ≡ false → Starts 0
    labelled : {q e : ℕ} → Run q e → line.at e ≡ b':' → e - q < max_label_len → Starts (e + 1)

  here-Blanks : (q : ℕ) → Blanks line q q
  here-Blanks q = record { from = omega arith; blanks = λ k a c. absurd (omega arith) }

  -- The first word from a position on, and the blanks before it.
  Spells-skip :
      {text : Array} {texts : List Array} (p : ℕ)
      → Spells line p (text ∷ texts)
      → (q : ℕ) × Blanks line p q
        × (is_end (line.at q) ≡ false)
        × (is_blank (line.at q) ≡ false)
        × Spells line q (text ∷ texts)
  Spells-skip p (spells_comma {q = q} b e rest) =
      (q, b, ground arith, ground arith, spells_comma (here-Blanks q) e rest)
  Spells-skip p (spells_word {q = q} b w rest) =
      let first : is_delimiter (line.at q) ≡ false = ground (arith, w.solid 0, w.some) in
      (q, b, ground arith, ground arith, spells_word (here-Blanks q) w rest)

  Blanks-unique :
      (p q r : ℕ)
      → Blanks line p q
      → Blanks line p r
      → is_blank (line.at q) ≡ false
      → is_blank (line.at r) ≡ false
      → q ≡ r
  Blanks-unique p q r b c hq hr = elim (Bool-cases (ltb q r)) [
    | inl e ↦ absurd (ground (arith, c.blanks q, b.from))
    | inr e ↦ elim (Bool-cases (ltb r q)) [
      | inl f ↦ absurd (ground (arith, b.blanks r, c.from))
      | inr f ↦ ground arith
    ]
  ]

  -- The words are the same from behind the blanks on.
  Spells-behind :
      {s : AsmState} {words : List Array} {inst : Instruction} (p q : ℕ)
      → Blanks line p q
      → is_blank (line.at q) ≡ false
      → Writes s words inst
      → Spells line p words
      → Spells line q words
  Spells-behind p q b solid (writes op has same ops) words =
      let (r, c, open_, stop, rest) = Spells-skip p words in
      let here : q ≡ r = Blanks-unique p q r b c solid stop in rw here rest

module _ (line : Array) (n : ℕ) (string : IsString line n) where
  Run-inside : (q e : ℕ) → Run line q e → e ≤ n
  Run-inside q e r = elim (Bool-cases (ltb n e)) [
    | inl over ↦ absurd (inside over)
    | inr e ↦ ground arith
  ]
    where
      inside : ltb n e ≡ true → ⊥
      inside over = elim (Bool-cases (ltb n q)) [
        | inl f ↦ absurd (ground (arith, r.blanks.blanks n, string.terminator))
        | inr f ↦ absurd (ground (arith, r.characters n, string.terminator))
      ]

  label_loop-Run :
      (q e : ℕ)
      → Run line q e
      → (left p : ℕ) → q ≤ p
      → p ≤ e
      → e < p + left
      → label_loop line left p ≡ ok e
  unfolding label_loop
  label_loop-Run q e r zero p from h enough = absurd (omega arith)
  label_loop-Run q e r (suc left) p from h enough =
      rw (load-ok line p (omega (arith, Run-inside q e r, string.room)))
        (elim (Bool-cases (p == e)) [
          | inl end ↦ let here : p ≡ e = ground arith in rw (here, r.ended) refl
          | inr more ↦
              rw (r.characters p from (ground arith))
                (label_loop-Run q e r left (p + 1) (omega arith) (ground arith) (omega arith))
        ])

  assemble_instruction-Writes :
      (s : AsmState) {words : List Array} {inst : Instruction} (p : ℕ)
      → p ≤ n
      → Writes s words inst
      → Spells line p words
      → length words ≤ 8
      → assemble_instruction s line p ≡ emit s inst
  unfolding assemble_instruction assemble_opcode
  assemble_instruction-Writes s p h (writes op has same ops) words few =
      let ((count, tokens), run, (total, ((m, first), rest))) =
        Returns-ok (tokenize-Spells line n string p words h few) in
      let opcode : parse_opcode (tokens 0) ≡ ok (pos (code op)) =
        parse_opcode-mnemonic op (tokens 0) _
          (SameString-trans _ (SameString-sized m _ first same.left) same) in
      let byte : u8 (code op) ≡ code op = omega (arith, code-lt op) in
      rw
        (
          run,
          total,
          opcode,
          byte,
          form_of-format op has,
          min_tokens-Operands ops,
          operands-Operands s tokens ops rest,
        )
        (ground arith)

  -- A label is no part of the second pass.
  define_label-second :
      (s : AsmState) (p len : ℕ)
      → ¬ (s.pass ≡ 1)
      → p + len ≤ n
      → len < max_label_len
      → define_label s line p len ≡ ok s
  unfolding define_label
  define_label-second s p len second inside short =
      let other : (s.pass == 1) ≡ false = ground arith in
      rw
        (
          memcpy-splice (record { size = max_label_len; at = λ k. 0 }) 0 line p len (omega arith)
              (omega (arith, string.room)),
          store-ok (record { size = max_label_len; at = splice (λ k. 0) 0 line.at p len }) len 0
              short,
          other,
        )
        refl

  assemble_from-labelled :
      (s : AsmState) (q e : ℕ) {words : List Array} {inst : Instruction}
      → ¬ (s.pass ≡ 1)
      → Run line q e
      → line.at e ≡ b':'
      → e - q < max_label_len
      → Writes s words inst
      → Spells line (e + 1) words
      → length words ≤ 8
      → assemble_from s line q e ≡ emit s inst
  unfolding assemble_from
  assemble_from-labelled s q e second r colon short (writes op has same ops) words few =
      let (p, b, open_, solid, rest) = Spells-skip line (e + 1) words in
      let inside : e + 1 ≤ n = ground (arith, string.terminator, Run-inside q e r) in
      let there : p ≤ n = Blanks-inside line n string (e + 1) p b inside in
      let more : (line.at p == 0) ≡ false = ground arith in
      let some : ltb 0 (e - q) ≡ true = ground (arith, r.some) in
      let fits : leb max_label_len (e - q) ≡ false = ground arith in
      rw
        (
          load-ok line e (omega (arith, string.room)),
          colon,
          some,
          fits,
          define_label-second s q (e - q) second (omega (arith, r.some)) short,
          skip_whitespace-Blanks line n string (e + 1) p inside b solid,
          load-ok line p (omega (arith, string.room)),
          more,
        )
        (assemble_instruction-Writes s p there (writes op has same ops) rest few)

  first : (q e : ℕ) → Run line q e → is_blank (line.at q) ≡ false
  first q e r = ground (arith, r.characters q, r.some)

  -- In the second pass, a line that is a string of at most eight words, short enough for a token
  -- each, the name of an opcode that has a form and its operands in the order of that, with a label before
  -- them or without, writes the instruction that they stand for: the registers and numbers that
  -- are written, and the distance or the address of a label of the table.
  pub assemble_line-Writes :
      (s : AsmState) (p : ℕ) (words : List Array) (inst : Instruction)
      → ¬ (s.pass ≡ 1)
      → Starts line p
      → Spells line p words
      → length words ≤ 8
      → Writes s words inst
      → assemble_line s line ≡ emit s inst
  unfolding assemble_line assemble_from
  assemble_line-Writes s _ words inst second (unlabelled {q = q} {e = e} r other) spelt few w =
      rw
        (
          skip_whitespace-Blanks line n string 0 q (omega arith) r.blanks (first q e r),
          load-ok line q (omega (arith, string.room, Run-inside q e r, r.some)),
          r.solid,
          label_loop-Run q e r (line.size + 1) q (omega arith) (omega (arith, r.some))
              (omega (arith, Run-inside q e r, string.room)),
          load-ok line e (omega (arith, string.room, Run-inside q e r)),
          other,
        )
        (assemble_instruction-Writes s q (omega (arith, r.some, Run-inside q e r)) w
          (Spells-behind line 0 q r.blanks (first q e r) w spelt) few)
  assemble_line-Writes s _ words inst second (labelled {q = q} {e = e} r colon short) spelt few w =
      rw
        (
          skip_whitespace-Blanks line n string 0 q (omega arith) r.blanks (first q e r),
          load-ok line q (omega (arith, string.room, Run-inside q e r, r.some)),
          r.solid,
          label_loop-Run q e r (line.size + 1) q (omega arith) (omega (arith, r.some))
              (omega (arith, Run-inside q e r, string.room)),
        )
        (assemble_from-labelled s q e second r colon short w spelt few)
