-- ===== src/Tools/Bin2h/Names.antt =====
-- What the names of src/tools/bin2h.c consist of.
use crisp.Base.{
  ℕ, zero, suc, ◌+◌, ◌-◌, ◌≤◌, ◌<◌, ◌≡◌, ◌≢◌, ◌⊎◌, inl, inr, ◌==◌, Bool, ◌||◌, ltb, leb, not, ◌&&◌,
  true, false, ok, fault, refl, ◌∙◌, arith, Returns, returns, Bool-cases,
}
use crisp.Base.Runs.{Returns-if, Returns-mono, Returns-ok}
use crisp.Array.{Array, load-ok, store-ok, store-fault}
use crisp.CString.Search.{IsString}
use crisp.Tools.Bin2h.{
  is_separator, basename_loop, get_basename, is_alphanumeric, identifier_character, identifier_loop,
  filename_to_identifier,
}

-- `/` and `\`
abbrev pub is_slash : ℕ → Bool
is_slash c = c == b'/' || c == b'\\'

module _ (path : Array) (n : ℕ) (string : IsString path n) where
  -- The base name: no separator follows, and one stands just before it if it is not the start.
  pub record IsBasename (start base : ℕ) : Type 0 where
    pub from : start ≤ base
    pub inside : base ≤ n
    pub last : (j : ℕ) → base ≤ j → j < n → is_slash (path.at j) ≡ false
    pub first : (base ≡ start) ⊎ ((j : ℕ) × (base ≡ j + 1) × (is_slash (path.at j) ≡ true))

  basename_loop-IsBasename :
      (start left base p : ℕ)
      → p ≤ n
      → n < p + left
      → start ≤ base
      → base ≤ p
      → ((j : ℕ) → base ≤ j → j < p → is_separator (path.at j) ≡ false)
      → (base ≡ start) ⊎ ((j : ℕ) × (base ≡ j + 1) × (is_separator (path.at j) ≡ true))
      → Returns (IsBasename start) (basename_loop path left base p)
  unfolding basename_loop
  basename_loop-IsBasename start zero base p h enough from below last first = absurd (omega arith)
  basename_loop-IsBasename start (suc left) base p h enough from below last first =
      rw (load-ok path p (omega (arith, string.room))) (
        Returns-if (path.at p == 0)
          (λ e. returns (record {
            from = from;
            inside = omega arith;
            last = λ j a b. last j a (ground (arith, string.characters p));
            first = first;
          }))
          (λ e.
            let inside : p + 1 ≤ n = ground (arith, string.terminator) in
            elim (Bool-cases (is_separator (path.at p))) [
              | inl sep ↦ rw sep (
                  basename_loop-IsBasename start left (p + 1) (p + 1) inside (omega arith)
                    (omega arith) (omega arith) (λ j a b. absurd (omega arith))
                    (inr (p, refl, sep)))
              | inr other ↦ rw other (
                  basename_loop-IsBasename start left base (p + 1) inside (omega arith) from
                    (omega arith) (λ j a b. ground (arith, last j, other)) first)
            ]))

  -- get_basename of a string ends without undefined behaviour, at the start or just behind a
  -- separator, `/` or `\`, with no separator from there on.
  pub get_basename-IsBasename :
      (start : ℕ)
      → start ≤ n
      → (base : ℕ) × (get_basename path start ≡ ok base) × IsBasename start base
  unfolding get_basename
  get_basename-IsBasename start h = Returns-ok (
      basename_loop-IsBasename start (path.size + 1) start start h (omega (arith, string.room))
        (omega arith) (omega arith) (λ j a b. absurd (omega arith)) (inl refl))

-- The letters of the alphabet, small or capital, and the ten digits.
pub data IsAlphanumeric (c : ℕ) : Type 0 where
  small_letter : 97 ≤ c → c ≤ 122 → IsAlphanumeric c
  capital_letter : 65 ≤ c → c ≤ 90 → IsAlphanumeric c
  numeral : 48 ≤ c → c ≤ 57 → IsAlphanumeric c

identifier_character-kept : (c : ℕ) → IsAlphanumeric c → identifier_character c ≡ c
identifier_character-kept c (small_letter from to) = ground arith
identifier_character-kept c (capital_letter from to) = ground arith
identifier_character-kept c (numeral from to) = ground arith

identifier_character-replaced : (c : ℕ) → ¬ IsAlphanumeric c → identifier_character c ≡ b'_'
identifier_character-replaced c other = elim (Bool-cases (is_alphanumeric c)) [
  | inr e ↦ rw e refl
  | inl e ↦ elim (Bool-cases (leb 97 c)) [
    | inl small ↦ absurd (other (small_letter (ground arith) (ground arith)))
    | inr large ↦ elim (Bool-cases (leb 65 c)) [
      | inl capital ↦ absurd (other (capital_letter (ground arith) (ground arith)))
      | inr low ↦ absurd (other (numeral (ground arith) (ground arith)))
    ]
  ]
]

-- The part of a file name from `p` up to `q`, where it ends or has its first dot.
pub record IsStem (filename : Array) (n p q : ℕ) : Type 0 where
  pub from : p ≤ q
  pub inside : q ≤ n
  pub no_dot : (j : ℕ) → p ≤ j → j < q → filename.at j ≢ b'.'
  pub ends : (q ≡ n) ⊎ (filename.at q ≡ b'.')

module _ (filename : Array) (n : ℕ) (string : IsString filename n) (q : ℕ) where
  -- The characters from `i` on are those of the stem, and then there is the terminator.
  record Written (p i : ℕ) (identifier out : Array) : Type 0 where
    before : (j : ℕ) → j < i → out.at j ≡ identifier.at j
    size : out.size ≡ identifier.size
    characters :
        (j k : ℕ) → p ≤ k → k < q → j + p ≡ i + k → out.at j ≡ identifier_character (filename.at k)
    terminator : out.at (i + (q - p)) ≡ 0

  identifier_loop-Written :
      (left p i : ℕ) (identifier : Array)
      → IsStem filename n p q
      → n < p + left
      → i + (q - p) < identifier.size
      → Returns (Written p i identifier) (identifier_loop filename left p i identifier)
  unfolding identifier_loop
  identifier_loop-Written zero p i identifier stem enough room =
      absurd (omega (arith, stem.from, stem.inside))
  identifier_loop-Written (suc left) p i identifier stem enough room =
      rw (load-ok filename p (omega (arith, string.room, stem.from, stem.inside))) (
        Returns-if (not (filename.at p == 0) && not (filename.at p == b'.'))
          (λ more.
            let inside : p + 1 ≤ q = ground (arith, stem.from, stem.ends, string.terminator) in
            rw (store-ok identifier i (identifier_character (filename.at p)) (omega arith)) (
              Returns-mono
                (identifier_loop-Written left (p + 1) (i + 1) _
                  (record {
                    from = inside;
                    inside = stem.inside;
                    no_dot = λ j a. stem.no_dot j (omega arith);
                    ends = stem.ends;
                  })
                  (omega arith) (omega arith))
                λ out w. record {
                  before = λ j below. w.before j (omega arith) ∙ ground arith;
                  size = w.size;
                  characters = λ j k a b e. elim (Bool-cases (k == p)) [
                    | inl first ↦ w.before j (ground arith) ∙ ground arith
                    | inr later ↦ w.characters j k (ground arith) b (omega arith)
                  ];
                  terminator = ground (arith, w.terminator);
                }))
          (λ stop.
            let last : p ≡ q =
              ground (arith, stem.from, stem.inside, stem.no_dot p, string.characters p) in
            rw (store-ok identifier i 0 (omega arith)) (
              returns (record {
                before = λ j below. ground arith;
                size = refl;
                characters = λ j k a b e. absurd (omega arith);
                terminator = ground arith;
              }))))

  -- The bound of the buffer is not tested.
  identifier_loop-fault :
      (left p i : ℕ) (identifier : Array)
      → IsStem filename n p q
      → n < p + left
      → i ≤ identifier.size
      → identifier.size ≤ i + (q - p)
      → identifier_loop filename left p i identifier ≡ fault
  unfolding identifier_loop
  identifier_loop-fault zero p i identifier stem enough fits long =
      absurd (omega (arith, stem.from, stem.inside))
  identifier_loop-fault (suc left) p i identifier stem enough fits long =
      rw (load-ok filename p (omega (arith, string.room, stem.from, stem.inside)))
        (elim (Bool-cases (ltb p q)) [
          | inl more ↦
              let solid : (not (filename.at p == 0) && not (filename.at p == b'.')) ≡ true =
                ground (arith, stem.inside, stem.no_dot p, string.characters p) in
              rw solid (elim (Bool-cases (ltb i identifier.size)) [
                | inl room ↦
                    rw (store-ok identifier i (identifier_character (filename.at p)) (ground arith))
                      (identifier_loop-fault left (p + 1) (i + 1) _
                        (record {
                          from = ground arith;
                          inside = stem.inside;
                          no_dot = λ j a. stem.no_dot j (omega arith);
                          ends = stem.ends;
                        })
                        (omega arith) (ground arith) (omega arith))
                | inr full ↦
                    rw
                      (store-fault identifier i (identifier_character (filename.at p))
                        (ground arith))
                      refl
              ])
          | inr done ↦
              let stop : (not (filename.at p == 0) && not (filename.at p == b'.')) ≡ false =
                ground (arith, stem.from, stem.ends, string.terminator) in
              rw (stop, store-fault identifier i 0 (ground (arith, stem.from))) refl
        ])

  -- The stem with underscores, as a string: a letter or a digit is kept, and what is none gives way
  -- to an underscore.
  pub record IsIdentifier (p : ℕ) (out : Array) : Type 0 where
    pub text : IsString out (q - p)
    pub kept :
        (j : ℕ) → p + j < q → IsAlphanumeric (filename.at (p + j)) → out.at j ≡ filename.at (p + j)
    pub replaced : (j : ℕ) → p + j < q → ¬ IsAlphanumeric (filename.at (p + j)) → out.at j ≡ b'_'

  -- The identifier for a file name whose stem is shorter than the buffer: filename_to_identifier
  -- ends without undefined behaviour and writes a string as long as the stem, each of its
  -- characters the one of the stem if that is a letter or a digit, and an underscore if it is not.
  pub filename_to_identifier-characters :
      (p : ℕ) (identifier : Array)
      → IsStem filename n p q
      → q - p < identifier.size
      → (out : Array) × (filename_to_identifier filename p identifier ≡ ok out) × IsIdentifier p out
  unfolding filename_to_identifier
  filename_to_identifier-characters p identifier stem room =
      let (out, run, w) = Returns-ok (
        identifier_loop-Written (filename.size + 1) p 0 identifier stem
          (omega (arith, string.room, stem.from, stem.inside)) (omega (arith, room))) in
      (
        out,
        run,
        record {
          text = record {
            room = omega (arith, w.size);
            terminator = ground (arith, w.terminator);
            characters = λ j below.
                ground (arith, w.characters j (p + j) (omega arith) (omega arith) (omega arith));
          };
          kept = λ j below same.
              w.characters j (p + j) (omega arith) below (omega arith)
              ∙ identifier_character-kept _ same;
          replaced = λ j below other.
              w.characters j (p + j) (omega arith) below (omega arith)
              ∙ identifier_character-replaced _ other;
        },
      )

  -- A file name whose stem is not shorter than the buffer is written past its end: the bound of the
  -- buffer is not tested.
  pub filename_to_identifier-fault :
      (p : ℕ) (identifier : Array)
      → IsStem filename n p q
      → identifier.size ≤ q - p
      → filename_to_identifier filename p identifier ≡ fault
  unfolding filename_to_identifier
  filename_to_identifier-fault p identifier stem long =
      identifier_loop-fault (filename.size + 1) p 0 identifier stem
        (omega (arith, string.room, stem.from, stem.inside)) (omega arith) (omega (arith, long))
