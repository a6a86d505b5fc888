-- ===== src/CString/Search.antt =====
-- `c32_strlen` and `c32_strcmp` on strings.
use crisp.Base.{ℕ, zero, suc, ◌+◌, ◌≤◌, ◌<◌, ◌≡◌, ◌≢◌, ◌⊎◌, arith, ok}
use crisp.Base.Int.{sub_ℕ}
use crisp.Array.{Array, load-ok}
use crisp.CString.{strlen, strlen_loop, strcmp, strcmp_loop}

-- `s` holds a string of `n` characters: `n` cells that are not zero, and the terminator.
pub record IsString (s : Array) (n : ℕ) : Type 0 where
  pub room : n < s.size
  pub terminator : s.at n ≡ 0
  pub characters : (k : ℕ) → k < n → s.at k ≢ 0

module _ (s : Array) (n : ℕ) (string : IsString s n) where
  strlen_loop-IsString : (left len : ℕ) → len ≤ n → n < len + left → strlen_loop s left len ≡ ok n
  unfolding strlen_loop
  strlen_loop-IsString zero len h enough = absurd (omega arith)
  strlen_loop-IsString (suc left) len h enough = rw (load-ok s len (omega (arith, string.room))) (
      ground (
        arith,
        string.room,
        string.terminator,
        string.characters len,
        strlen_loop-IsString left (len + 1),
      ))

  -- The length of a string of `n` characters is `n`.
  pub strlen-IsString : strlen s ≡ ok n
  unfolding strlen
  strlen-IsString = strlen_loop-IsString (s.size + 1) 0 (omega arith) (omega (arith, string.room))

module _ (a b : Array) (k : ℕ) where
  strcmp_loop-difference :
      (left i : ℕ)
      → k < a.size
      → k < b.size
      → ((j : ℕ) → j < k → a.at j ≡ b.at j)
      → ((j : ℕ) → j < k → a.at j ≢ 0)
      → (a.at k ≢ b.at k) ⊎ (a.at k ≡ 0)
      → i ≤ k
      → k < i + left
      → strcmp_loop a b left i ≡ ok (sub_ℕ (a.at k) (b.at k))
  unfolding strcmp_loop
  strcmp_loop-difference zero i ha hb same nonzero here h enough = absurd (omega arith)
  strcmp_loop-difference (suc left) i ha hb same nonzero here h enough =
      rw (load-ok a i (omega arith), load-ok b i (omega arith))
        (ground
          (arith, same i, nonzero i, strcmp_loop-difference left (i + 1) ha hb same nonzero here))

  -- The first position where two strings differ, or where both end, decides the comparison: the
  -- result is the difference of the two bytes there. The position lies in both arrays, and neither
  -- string ends before it.
  pub strcmp-difference :
      k < a.size
      → k < b.size
      → ((j : ℕ) → j < k → a.at j ≡ b.at j)
      → ((j : ℕ) → j < k → a.at j ≢ 0)
      → (a.at k ≢ b.at k) ⊎ (a.at k ≡ 0)
      → strcmp a b ≡ ok (sub_ℕ (a.at k) (b.at k))
  unfolding strcmp
  strcmp-difference ha hb same nonzero here =
      strcmp_loop-difference (a.size + 1) 0 ha hb same nonzero here (omega arith) (omega arith)
