-- ===== src/CString/Same.antt =====
-- Buffers that hold the same string.
use crisp.Base.{
  ℕ, zero, suc, ◌+◌, ◌≤◌, ◌<◌, ◌≡◌, ◌==◌, ltb, refl, sym, ◌∙◌, arith, Bool-cases, inl, inr,
}
use crisp.Array.{Array, load-ok, load-fault}
use crisp.CString.{strcmp, strcmp_loop}
use crisp.CString.Search.{IsString}

-- Two buffers that hold the same string.
pub record SameString (a b : Array) (n : ℕ) : Type 0 where
  pub left : IsString a n
  pub right : IsString b n
  pub characters : (k : ℕ) → k < n → a.at k ≡ b.at k

module _ (a b : Array) (n : ℕ) (same : SameString a b n) where
  strcmp_loop-same :
      (c : Array) (left left' i : ℕ)
      → i ≤ n
      → n < i + left
      → n < i + left'
      → strcmp_loop a c left i ≡ strcmp_loop b c left' i
  unfolding strcmp_loop
  strcmp_loop-same c zero left' i h e e' = absurd (omega arith)
  strcmp_loop-same c (suc left) zero i h e e' = absurd (omega arith)
  strcmp_loop-same c (suc left) (suc left') i h e e' = elim (Bool-cases (i == n)) [
    | inl end ↦
        let na : a.at i ≡ 0 = ground (arith, same.left.terminator) in
        let nb : b.at i ≡ 0 = ground (arith, same.right.terminator) in
        rw
          (
            load-ok a i (omega (arith, same.left.room)),
            load-ok b i (omega (arith, same.right.room)),
            na,
            nb,
          )
          refl
    | inr inside ↦
        rw
          (
            load-ok a i (omega (arith, same.left.room)),
            load-ok b i (omega (arith, same.right.room)),
            same.characters i (ground arith),
            strcmp_loop-same c left left' (i + 1) (ground arith) (omega arith) (omega arith),
          )
          refl
  ]

  pub strcmp-same_left : (c : Array) → strcmp a c ≡ strcmp b c
  unfolding strcmp
  strcmp-same_left c =
      strcmp_loop-same c (a.size + 1) (b.size + 1) 0 (omega arith) (omega (arith, same.left.room))
        (omega (arith, same.right.room))

  -- The other way around: the string that is compared with is `a` or `b`.
  strcmp_loop-same_right :
      (c : Array) (left i : ℕ) → i ≤ n → strcmp_loop c a left i ≡ strcmp_loop c b left i
  unfolding strcmp_loop
  strcmp_loop-same_right c zero i h = refl
  strcmp_loop-same_right c (suc left) i h = elim (Bool-cases (ltb i c.size)) [
    | inl inside ↦ elim (Bool-cases (i == n)) [
      | inl end ↦
          let na : a.at i ≡ 0 = ground (arith, same.left.terminator) in
          let nb : b.at i ≡ 0 = ground (arith, same.right.terminator) in
          rw
            (
              load-ok c i (ground arith),
              load-ok a i (omega (arith, same.left.room)),
              load-ok b i (omega (arith, same.right.room)),
              na,
              nb,
            )
            (elim (Bool-cases (c.at i == 0)) [ inl e ↦ rw e refl | inr e ↦ rw e refl ])
      | inr more ↦
          rw
            (
              load-ok c i (ground arith),
              load-ok a i (omega (arith, same.left.room)),
              load-ok b i (omega (arith, same.right.room)),
              same.characters i (ground arith),
              strcmp_loop-same_right c left (i + 1) (ground arith),
            )
            refl
    ]
    | inr outside ↦ rw (load-fault c i (ground arith)) refl
  ]

  pub strcmp-same_right : (c : Array) → strcmp c a ≡ strcmp c b
  unfolding strcmp
  strcmp-same_right c = strcmp_loop-same_right c (c.size + 1) 0 (omega arith)

pub SameString-trans :
    {a b c : Array} (n : ℕ) → SameString a b n → SameString b c n → SameString a c n
SameString-trans n p q = record {
  left = p.left;
  right = q.right;
  characters = λ k below. p.characters k below ∙ q.characters k below;
}

-- A string has one length.
SameString-length : {a b : Array} (n m : ℕ) → SameString a b n → IsString b m → n ≡ m
SameString-length n m p s = elim (Bool-cases (ltb n m)) [
  | inl e ↦ absurd (s.characters n (ground arith) p.right.terminator)
  | inr e ↦ elim (Bool-cases (ltb m n)) [
    | inl f ↦ absurd (p.right.characters m (ground arith) s.terminator)
    | inr f ↦ ground arith
  ]
]

pub SameString-sized : {a b : Array} (n m : ℕ) → SameString a b n → IsString b m → SameString a b m
SameString-sized n m p s = let length : m ≡ n = sym (SameString-length n m p s) in rw length p
