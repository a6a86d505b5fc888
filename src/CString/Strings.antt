-- ===== src/CString/Strings.antt =====
-- `c32_strcpy` on strings.
use crisp.Base.{
  ℕ, zero, suc, ◌+◌, ◌≤◌, ◌<◌, ◌≡◌, refl, ◌∙◌, ap, fun_ext, arith, ok, ltb, if◌then◌else◌, inl, inr,
  leb, Bool-cases, ◌==◌, true, false,
}
use crisp.Base.Int.{pos}
use crisp.Array.{Array, update, load-ok, store-ok}
use crisp.CString.{strcpy, strcpy_loop, strcmp}
use crisp.CString.Search.{IsString, strcmp-difference}

-- `f` with the first `n + 1` cells replaced by a string of `n` characters of `g`.
abbrev pub copied : (ℕ → ℕ) → (ℕ → ℕ) → ℕ → ℕ → ℕ
copied f g n j = if leb j n then g j else f j

module _ (src : Array) (n : ℕ) (string : IsString src n) where
  -- The cells before `i` are copied already.
  strcpy_loop-copied :
      (left i : ℕ) (dest : Array)
      → i ≤ n
      → n < i + left
      → n < dest.size
      → strcpy_loop src left i dest
        ≡ ok (record dest { at = λ j. if ltb j i then dest.at j else copied dest.at src.at n j })
  unfolding strcpy_loop
  strcpy_loop-copied zero i dest h enough room = absurd (omega arith)
  strcpy_loop-copied (suc left) i dest h enough room = elim (Bool-cases (ltb i n)) [
    | inl e ↦
        let nonzero : (src.at i == 0) ≡ false = ground (arith, string.characters i) in
        rw
          (
            load-ok src i (ground (arith, string.room)),
            nonzero,
            store-ok dest i (src.at i) (ground arith),
          )
          (strcpy_loop-copied left (i + 1) (record dest { at = update dest.at i (src.at i) })
              (ground arith) (omega arith) room
            ∙ ap (λ f. ok (record dest { at = f })) (fun_ext λ j. ground arith))
    | inr e ↦
        let here : i ≡ n = ground arith in
        let zero_here : (src.at i == 0) ≡ true = ground (arith, string.terminator) in
        rw
          (load-ok src i (ground (arith, string.room)), zero_here, store-ok dest i 0 (ground arith))
          (ap (λ f. ok (record dest { at = f })) (fun_ext λ j. ground (arith, string.terminator)))
  ]

  -- Copying a string into a buffer with room for it and its terminator replaces just those cells.
  pub strcpy-copied :
      (dest : Array)
      → n < dest.size
      → strcpy dest src ≡ ok (record dest { at = copied dest.at src.at n })
  unfolding strcpy
  strcpy-copied dest room =
      strcpy_loop-copied (src.size + 1) 0 dest (omega arith) (omega (arith, string.room)) room
      ∙ ap (λ f. ok (record dest { at = f })) (fun_ext λ j. ground arith)

  pub copied-IsString :
      (dest : Array) → n < dest.size → IsString (record dest { at = copied dest.at src.at n }) n
  copied-IsString dest room = record {
    room = room;
    terminator = ground (arith, string.terminator);
    characters = λ k h. ground (arith, string.characters k h);
  }

-- Equal strings compare as 0.
pub strcmp-same :
    (a b : Array) (n : ℕ)
    → IsString a n
    → IsString b n
    → ((k : ℕ) → k < n → a.at k ≡ b.at k)
    → strcmp a b ≡ ok (pos 0)
strcmp-same a b n sa sb same =
    strcmp-difference a b n sa.room sb.room same sa.characters (inr sa.terminator)
    ∙ rw (sa.terminator, sb.terminator) refl
