-- ===== src/CString/Copy.antt =====
-- Copies by `c32_memcpy`.
use crisp.Base.{
  ℕ, zero, suc, ◌+◌, ◌-◌, ◌≤◌, ◌<◌, ◌≡◌, arith, fun_ext, ltb, leb, if◌then◌else◌, ◌&&◌, Outcome, ok,
  fault, ap, ◌∙◌, ◌⊎◌, inl,
}
use crisp.Array.{Array, update, load, store, load-ok, store-ok}
use crisp.CString.{memcpy, memcpy_loop}

-- `f` with the `n` cells from `d` on replaced by those of `g` from `s` on.
abbrev pub splice : (ℕ → ℕ) → ℕ → (ℕ → ℕ) → ℕ → ℕ → ℕ → ℕ
splice f d g s n j = if leb d j && ltb j (d + n) then g (s + (j - d)) else f j

-- One round moves one cell.
splice-suc :
    (f g : ℕ → ℕ) (d s i left j : ℕ)
    → splice (update f (d + i) (g (s + i))) (d + (i + 1)) g (s + (i + 1)) left j
      ≡ splice f (d + i) g (s + i) (suc left) j
splice-suc f g d s i left j = ground arith

abbrev with_cells : Array → (ℕ → ℕ) → Outcome Array
with_cells a f = ok (record a { at = f })

module _ (src : Array) (s d : ℕ) where
  memcpy_loop-splice :
      (left i : ℕ) (dest : Array)
      → s + i + left ≤ src.size
      → d + i + left ≤ dest.size
      → memcpy_loop src s d left i dest
        ≡ ok (record dest { at = splice dest.at (d + i) src.at (s + i) left })
  unfolding memcpy_loop
  memcpy_loop-splice zero i dest hs hd = ap (with_cells dest) (fun_ext λ j. ground arith)
  memcpy_loop-splice (suc left) i dest hs hd =
      rw (load-ok src (s + i) (omega arith), store-ok dest (d + i) (src.at (s + i)) (omega arith))
        (memcpy_loop-splice left (i + 1)
            (record dest { at = update dest.at (d + i) (src.at (s + i)) }) (omega arith)
            (omega arith)
          ∙ ap (with_cells dest) (fun_ext λ j. splice-suc dest.at src.at d s i left j))

  memcpy_loop-fault :
      (left i : ℕ) (dest : Array)
      → (src.size < s + i + left) ⊎ (dest.size < d + i + left)
      → (0 < left) ⊎ ((s + i ≤ src.size) × (d + i ≤ dest.size))
      → memcpy_loop src s d left i dest ≡ fault
  unfolding memcpy_loop load store
  memcpy_loop-fault zero i dest out start = absurd (omega arith)
  memcpy_loop-fault (suc left) i dest out start = ground (
    arith,
    memcpy_loop-fault left (i + 1) (record dest { at = update dest.at (d + i) (src.at (s + i)) }),
  )

-- Copying `n` bytes between arrays that both have them at the given offsets replaces just those
-- cells of the destination.
pub memcpy-splice :
    (dest : Array) (d : ℕ) (src : Array) (s n : ℕ)
    → d + n ≤ dest.size
    → s + n ≤ src.size
    → memcpy dest d src s n ≡ ok (record dest { at = splice dest.at d src.at s n })
unfolding memcpy
memcpy-splice dest d src s n hd hs =
    memcpy_loop-splice src s d n 0 dest (omega arith) (omega arith)
    ∙ ap (with_cells dest) (fun_ext λ j. ground arith)

-- A copy of at least one byte that would leave either array is undefined behaviour.
pub memcpy-fault :
    (dest : Array) (d : ℕ) (src : Array) (s n : ℕ)
    → 0 < n
    → (src.size < s + n) ⊎ (dest.size < d + n)
    → memcpy dest d src s n ≡ fault
unfolding memcpy
memcpy-fault dest d src s n pos out = memcpy_loop-fault src s d n 0 dest (ground arith) (inl pos)
