-- ===== src/Tools/Bin2h/Scan.antt =====
-- A reader of the values between the braces of an array of C, and what it finds in the header that
-- src/tools/bin2h.c writes.
use crisp.Base.{
  ℕ, zero, suc, ◌+◌, ◌*◌, ◌/◌, ◌%◌, ◌^◌, ◌<◌, ◌≡◌, ◌==◌, ◌||◌, ltb, not, ◌&&◌, refl, ap, ◌∙◌, arith,
  Bool, true, false, if◌then◌else◌, List, [], ◌∷◌, ◌++◌, Option, none, some, Bool-cases, inl, inr,
}
use mathlib.Core.List.{append_assoc}
use crisp.CString.Literal.{codes}
use crisp.Asm.Immediate.{hex_digit}
use crisp.CString.Format.{Text, digit_char, hex_byte, digits_loop, hex_long, padding}
use crisp.Tools.Bin2h.Text.{chunk_bytes, chunks_text}

abbrev pub AllBytes : List ℕ → Type 0
AllBytes [] = Unit {0}
AllBytes (b ∷ bytes) = (b < 2 ^ 8) × AllBytes bytes

abbrev pub AllChunks : List (List ℕ) → Type 0
AllChunks [] = Unit {0}
AllChunks (chunk ∷ chunks) = AllBytes chunk × AllChunks chunks

-- Where the reader is: before a value or behind one, in a number, or in a comment. A comment has
-- what the reader goes back to: `true` is before a value.
data Place : Type 0 where
  at_value at_comma leading_zero : Place
  number : ℕ → Place
  slash comment star : Bool → Place

abbrev place : Bool → Place
place true = at_value
place false = at_comma

-- What the reader does at a character: it goes on, with a value that ends there or without, or it
-- ends at the brace, or there is no such text.
data Move : Type 0 where
  go : Place → Move
  value : ℕ → Place → Move
  stop bad : Move
  last : ℕ → Move

abbrev emit : ℕ → Move → Move
emit v (go p) = value v p
emit v stop = last v
emit v _ = bad

abbrev is_space : ℕ → Bool
is_space c = c == b' ' || c == b'\n' || c == b'\t'

abbrev between : Bool → ℕ → Move
between b c =
    if is_space c
    then go (place b)
    else if c == b'/'
    then go (slash b)
    else if c == b'}'
    then stop
    else if not b && (c == b',')
    then go at_value
    else if b && (c == b'0')
    then go leading_zero
    else bad

abbrev in_number : ℕ → ℕ → Option ℕ → Move
in_number v c (some d) = go (number (v * 16 + d))
in_number v c none = emit v (between false c)

unfoldable move : Place → ℕ → Move
move at_value c = between true c
move at_comma c = between false c
move leading_zero c = if c == b'x' then go (number 0) else bad
move (number v) c = in_number v c (hex_digit c)
move (slash b) c = if c == b'*' then go (comment b) else bad
move (comment b) c = if c == b'*' then go (star b) else go (comment b)
move (star b) c =
    if c == b'/' then go (place b) else if c == b'*' then go (star b) else go (comment b)

abbrev prepend : ℕ → Option (List ℕ) → Option (List ℕ)
prepend v none = none
prepend v (some vs) = some (v ∷ vs)

abbrev continue : (Place → Option (List ℕ)) → Move → Option (List ℕ)
continue rest (go p) = rest p
continue rest (value v p) = prepend v (rest p)
continue rest stop = some []
continue rest (last v) = some (v ∷ [])
continue rest bad = none

-- The values up to the closing brace, if the text is a list of hexadecimal numbers.
scan : Text → Place → Option (List ℕ)
scan [] p = none
scan (c ∷ text) p = continue (scan text) (move p c)

-- The values between the braces of an array of C that are written in hexadecimal.
pub array_values : Text → Option (List ℕ)
array_values text = scan text at_value

scan-move :
    (c : ℕ) (text : Text) (p : Place) (m : Move)
    → move p c ≡ m
    → scan (c ∷ text) p ≡ continue (scan text) m
unfolding scan
scan-move c text p m e = ap (continue (scan text)) e

-- A digit goes on with the number.
move-digit : (v d : ℕ) → d < 16 → move (number v) (digit_char d) ≡ go (number (v * 16 + d))
unfolding move
move-digit v d h =
    let digit : hex_digit (digit_char d) ≡ some d = ground arith in
    ap (in_number v (digit_char d)) digit

-- The two digits of a byte, and the character behind them, a comma or a space.
scan-hex_byte :
    (b c : ℕ) (q : Place) (text : Text)
    → b < 256
    → move (number b) c ≡ value b q
    → scan (hex_byte b ++ (c ∷ text)) (number 0) ≡ prepend b (scan text q)
scan-hex_byte b c q text h behind =
    let whole : (0 * 16 + b / 16) * 16 + b % 16 ≡ b = omega arith in
    scan-move _ _ _ _ (move-digit 0 (b / 16) (omega arith))
    ∙ scan-move _ _ _ _ (move-digit _ (b % 16) (omega arith))
    ∙ ap (λ v. scan (c ∷ text) (number v)) whole
    ∙ scan-move _ _ _ _ behind

-- The characters of a text that end no comment.
unfoldable plain : Text → Bool
plain [] = true
plain (c ∷ text) = not (c == b'*') && plain text

scan-plain :
    (b : Bool) (text rest : Text)
    → plain text ≡ true
    → scan (text ++ rest) (comment b) ≡ scan rest (comment b)
unfolding scan move plain
scan-plain b [] rest e = refl
scan-plain b (c ∷ text) rest e =
    let other : (c == b'*') ≡ false = ground arith in
    rw other (scan-plain b text rest (ground arith))

plain-digits_loop :
    (left n : ℕ) (rest : Text) → plain rest ≡ true → plain (digits_loop 16 left n rest) ≡ true
unfolding plain digits_loop
plain-digits_loop zero n rest e = e
plain-digits_loop (suc left) n rest e =
    let other : (digit_char (n % 16) == b'*') ≡ false = ground arith in
    let longer : plain (digit_char (n % 16) ∷ rest) ≡ true = rw other e in
    elim (Bool-cases (n / 16 == 0)) [
      | inl end ↦ rw end longer
      | inr more ↦ rw more (plain-digits_loop left (n / 16) _ longer)
    ]

plain-padding : (b : Bool) (rest : Text) → plain rest ≡ true → plain (padding b ++ rest) ≡ true
unfolding plain
plain-padding true rest e = e
plain-padding false rest e = e

plain-hex_long : (n : ℕ) → plain (hex_long n) ≡ true
unfolding hex_long
plain-hex_long n = plain-padding (ltb n (16 ^ 3)) _ (
    plain-padding (ltb n (16 ^ 2)) _
      (plain-padding (ltb n 16) _ (plain-digits_loop 64 n [] (unfold plain in refl))))

abbrev prepend_all : List ℕ → Option (List ℕ) → Option (List ℕ)
prepend_all [] r = r
prepend_all (v ∷ vs) r = prepend v (prepend_all vs r)

-- `0x` before a number, a comma and a space behind one, and the space before a comment.
scan-prefix : (text : Text) → scan (b'0' ∷ b'x' ∷ text) at_value ≡ scan text (number 0)
unfolding scan move
scan-prefix text = refl

move-comma : (v : ℕ) → move (number v) b',' ≡ value v at_value
unfolding move
move-comma v = refl

move-space : (v : ℕ) → move (number v) b' ' ≡ value v at_comma
unfolding move
move-space v = refl

scan-blank : (text : Text) → scan (b' ' ∷ text) at_value ≡ scan text at_value
unfolding scan move
scan-blank text = refl

-- A chunk, and the space behind it.
scan-chunk_bytes :
    (b : ℕ) (bytes : List ℕ) (text : Text)
    → AllBytes (b ∷ bytes)
    → scan (chunk_bytes (b ∷ bytes) ++ (b' ' ∷ text)) at_value
      ≡ prepend_all (b ∷ bytes) (scan text at_comma)
unfolding chunk_bytes
scan-chunk_bytes b [] text (h, hs) =
    scan-prefix _ ∙ scan-hex_byte b b' ' at_comma text h (move-space b)
scan-chunk_bytes b (c ∷ bytes) text (h, hs) =
    scan-prefix _
    ∙ scan-hex_byte b b',' at_value _ h (move-comma b)
    ∙ ap (prepend b) (scan-blank _ ∙ scan-chunk_bytes c bytes text hs)

-- The comment with the offset.
scan-offset :
    (offset : ℕ) (rest : Text)
    → scan (b' ' ∷ (codes "/* 0x" ++ (hex_long offset ++ (codes " */" ++ rest)))) at_comma
      ≡ scan rest at_comma
unfolding scan move
scan-offset offset rest =
    scan-plain false (hex_long offset) (codes " */" ++ rest) (plain-hex_long offset)

-- A chunk with its comment, and what follows it.
scan-chunk :
    (b : ℕ) (bytes : List ℕ) (offset : ℕ) (more rest : Text)
    → AllBytes (b ∷ bytes)
    → scan
        ((codes "    "
            ++ (chunk_bytes (b ∷ bytes)
                ++ (codes "  /* 0x" ++ (hex_long offset ++ (codes " */" ++ more)))))
          ++ rest)
        at_value
      ≡ prepend_all (b ∷ bytes) (scan (more ++ rest) at_comma)
scan-chunk b bytes offset more rest h =
    let behind : Text = codes "  /* 0x" ++ (hex_long offset ++ (codes " */" ++ more)) in
    let written : Text = chunk_bytes (b ∷ bytes) in
    scan-blank _
    ∙ scan-blank _
    ∙ scan-blank _
    ∙ scan-blank ((written ++ behind) ++ rest)
    ∙ ap (λ t. scan t at_value) (append_assoc written behind rest)
    ∙ scan-chunk_bytes b bytes _ h
    ∙ ap (λ t. prepend_all (b ∷ bytes) (scan (codes " /* 0x" ++ t) at_comma))
        (append_assoc (hex_long offset) (codes " */" ++ more) rest)
    ∙ ap (prepend_all (b ∷ bytes)) (scan-offset offset (more ++ rest))

-- The bytes that `fread` delivers before it returns 0.
unfoldable pub delivered : List (List ℕ) → List ℕ
delivered [] = []
delivered ([] ∷ chunks) = []
delivered ((b ∷ bytes) ∷ chunks) = (b ∷ bytes) ++ delivered chunks

prepend_all-some : (vs ws : List ℕ) → prepend_all vs (some ws) ≡ some (vs ++ ws)
prepend_all-some [] ws = refl
prepend_all-some (v ∷ vs) ws = ap (prepend v) (prepend_all-some vs ws)

scan-end : (first : Bool) (rest : Text) → scan (codes "\n}" ++ rest) (place first) ≡ some []
unfolding scan move
scan-end true rest = refl
scan-end false rest = refl

scan-separator : (text : Text) → scan (codes ",\n" ++ text) at_comma ≡ scan text at_value
unfolding scan move
scan-separator text = refl

scan-chunks_text :
    (first : Bool) (offset : ℕ) (chunks : List (List ℕ)) (rest : Text)
    → AllChunks chunks
    → scan (chunks_text first offset chunks ++ (codes "\n}" ++ rest)) (place first)
      ≡ some (delivered chunks)
unfolding chunks_text delivered
scan-chunks_text first offset [] rest h = scan-end first rest
scan-chunks_text first offset ([] ∷ chunks) rest h = scan-end first rest
scan-chunks_text true offset ((b ∷ bytes) ∷ chunks) rest (h, hs) =
    scan-chunk b bytes offset _ (codes "\n}" ++ rest) h
    ∙ ap (prepend_all (b ∷ bytes)) (scan-chunks_text false _ chunks rest hs)
    ∙ prepend_all-some (b ∷ bytes) (delivered chunks)
scan-chunks_text false offset ((b ∷ bytes) ∷ chunks) rest (h, hs) =
    scan-separator _
    ∙ scan-chunk b bytes offset _ (codes "\n}" ++ rest) h
    ∙ ap (prepend_all (b ∷ bytes)) (scan-chunks_text false _ chunks rest hs)
    ∙ prepend_all-some (b ∷ bytes) (delivered chunks)

-- The text of the array from behind the opening brace on.
pub array_values-chunks_text :
    (chunks : List (List ℕ)) (rest : Text)
    → AllChunks chunks
    → array_values (chunks_text true 0 chunks ++ (codes "\n}" ++ rest)) ≡ some (delivered chunks)
unfolding array_values
array_values-chunks_text chunks rest h = scan-chunks_text true 0 chunks rest h
