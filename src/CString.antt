-- ===== src/CString.antt =====
-- src/common/c32_string.c: the memory and string routines over C arrays. A pointer is an array
-- and an offset into it; a loop counts the rounds that are left.
pub mod Fill
pub mod Copy
pub mod Format
pub mod Literal
pub mod Numerals
pub mod Same
pub mod Search
pub mod Strings
pub mod Total
use crisp.Base.{
  ℕ, zero, suc, ◌+◌, Outcome, ok, fault, ◌>>=◌, u8, ◌==◌, ltb, if◌then◌else◌, Bool, not, ◌&&◌,
}
use crisp.Base.Int.{ℤ, pos, sub_ℕ}
use crisp.Array.{Array, load, store}

-- `for (; i < n; i++) d[i] = s[i];` with `left` rounds to go
unfoldable pub memcpy_loop : (src : Array) (s d : ℕ) (left i : ℕ) → Array → Outcome Array
memcpy_loop src s d zero i dest = ok dest
memcpy_loop src s d (suc left) i dest = do
  x ← load src (s + i)
  dest' ← store dest (d + i) x
  memcpy_loop src s d left (i + 1) dest'

-- `c32_memcpy(dest + d, src + s, n)`
unfoldable pub memcpy : Array → ℕ → Array → ℕ → ℕ → Outcome Array
memcpy dest d src s n = memcpy_loop src s d n 0 dest

unfoldable pub memset_loop : (c p : ℕ) (left i : ℕ) → Array → Outcome Array
memset_loop c p zero i a = ok a
memset_loop c p (suc left) i a = do a' ← store a (p + i) (u8 c); memset_loop c p left (i + 1) a'

-- `c32_memset(a + p, c, n)`
unfoldable pub memset : Array → ℕ → ℕ → ℕ → Outcome Array
memset a p c n = memset_loop c p n 0 a

unfoldable pub memcmp_loop : (a b : Array) (p q : ℕ) (left i : ℕ) → Outcome ℤ
memcmp_loop a b p q zero i = ok (pos 0)
memcmp_loop a b p q (suc left) i = do
  x ← load a (p + i)
  y ← load b (q + i)
  let rest = memcmp_loop a b p q left (i + 1)
  if not (x == y) then ok (sub_ℕ x y) else rest

-- `c32_memcmp(a + p, b + q, n)`
unfoldable pub memcmp : Array → ℕ → Array → ℕ → ℕ → Outcome ℤ
memcmp a p b q n = memcmp_loop a b p q n 0

-- The `while` loops below stop at the terminating zero, or run off the array, which is a fault.
-- One round for each byte and one more is enough for either.
unfoldable pub strlen_loop : Array → ℕ → ℕ → Outcome ℕ
strlen_loop s zero len = fault
strlen_loop s (suc left) len = do
  c ← load s len
  let rest = strlen_loop s left (len + 1)
  if not (c == 0) then rest else ok len

unfoldable pub strlen : Array → Outcome ℕ
strlen s = strlen_loop s (s.size + 1) 0

unfoldable pub strcpy_loop : Array → ℕ → ℕ → Array → Outcome Array
strcpy_loop src zero i dest = fault
strcpy_loop src (suc left) i dest = do
  c ← load src i
  let rest = store dest i c >>= strcpy_loop src left (i + 1)
  if not (c == 0) then rest else store dest i 0

unfoldable pub strcpy : Array → Array → Outcome Array
strcpy dest src = strcpy_loop src (src.size + 1) 0 dest

-- `(unsigned char)s1[i] - (unsigned char)s2[i]` is an `int`, here a ℤ.
unfoldable pub strcmp_loop : (s1 s2 : Array) → ℕ → ℕ → Outcome ℤ
strcmp_loop s1 s2 zero i = fault
strcmp_loop s1 s2 (suc left) i = do
  x ← load s1 i
  y ← load s2 i
  let rest = strcmp_loop s1 s2 left (i + 1)
  if not (x == 0) && not (y == 0)
      then (if not (x == y) then ok (sub_ℕ x y) else rest)
      else ok (sub_ℕ x y)

unfoldable pub strcmp : Array → Array → Outcome ℤ
strcmp s1 s2 = strcmp_loop s1 s2 (s1.size + 1) 0
