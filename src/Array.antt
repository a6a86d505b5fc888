-- ===== src/Array.antt =====
-- C arrays: a size, and the contents as a function of the index. An access at or past the size is
-- undefined behaviour, `fault`.
use crisp.Base.{ℕ, ◌≤◌, ◌<◌, ◌≡◌, arith, ltb, ◌==◌, if◌then◌else◌, Outcome, ok, fault}

pub record Array : Type 0 where
  pub size : ℕ
  pub at : ℕ → ℕ

abbrev pub update : (ℕ → ℕ) → ℕ → ℕ → ℕ → ℕ
update f i v j = if j == i then v else f j

-- `a[i]`
unfoldable pub load : Array → ℕ → Outcome ℕ
load a i = if ltb i a.size then ok (a.at i) else fault

-- `a[i] = v`
unfoldable pub store : Array → ℕ → ℕ → Outcome Array
store a i v = if ltb i a.size then ok (record a { at = update a.at i v }) else fault

pub load-ok : (a : Array) (i : ℕ) → i < a.size → load a i ≡ ok (a.at i)
unfolding load
load-ok a i h = ground arith

pub store-ok :
    (a : Array) (i v : ℕ) → i < a.size → store a i v ≡ ok (record a { at = update a.at i v })
unfolding store
store-ok a i v h = ground arith

pub load-fault : (a : Array) (i : ℕ) → a.size ≤ i → load a i ≡ fault
unfolding load
load-fault a i h = ground arith

pub store-fault : (a : Array) (i v : ℕ) → a.size ≤ i → store a i v ≡ fault
unfolding store
store-fault a i v h = ground arith
