-- ===== src/CString/Fill.antt =====
-- `c32_memset` of src/c32_string.c fills a range.
use crisp.Base.{
  ℕ, zero, suc, ◌+◌, ◌≤◌, ◌≡◌, ltb, leb, ◌&&◌, if◌then◌else◌, refl, ◌∙◌, arith, Returns, returns,
  u8,
}
use crisp.Base.Runs.{Returns-mono}
use crisp.Array.{Array, update, store-ok}
use crisp.CString.{memset_loop, memset}

-- The bytes from `from` up to `to` are `c`, and the others are the old ones.
pub record Filled (a : Array) (from to c : ℕ) (b : Array) : Type 0 where
  pub size : b.size ≡ a.size
  pub bytes : (j : ℕ) → b.at j ≡ (if leb from j && ltb j to then c else a.at j)

memset_loop-Filled :
    (c p left i : ℕ) (a : Array) (from to : ℕ)
    → from ≡ p + i
    → to ≡ from + left
    → to ≤ a.size
    → Returns (Filled a from to (u8 c)) (memset_loop c p left i a)
unfolding memset_loop
memset_loop-Filled c p zero i a from to e l room =
    returns (record { size = refl; bytes = λ j. ground arith })
memset_loop-Filled c p (suc left) i a from to e l room =
    rw (store-ok a (p + i) (u8 c) (omega arith)) (
      Returns-mono
        (memset_loop-Filled c p left (i + 1) (record a { at = update a.at (p + i) (u8 c) })
          (from + 1) to (omega arith) (omega arith) room)
        λ b f. record { size = f.size; bytes = λ j. f.bytes j ∙ ground arith })

-- c32_memset of a range inside the array ends without undefined behaviour: every byte of the range
-- is then the low byte of the value, and every other byte is the old one.
pub memset-Filled :
    (a : Array) (p c n : ℕ) → p + n ≤ a.size → Returns (Filled a p (p + n) (u8 c)) (memset a p c n)
unfolding memset
memset-Filled a p c n room = memset_loop-Filled c p n 0 a p (p + n) (omega arith) refl room
