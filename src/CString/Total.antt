-- ===== src/CString/Total.antt =====
-- Runs of `c32_strcmp` that end without undefined behaviour.
use crisp.Base.{ℕ, zero, suc, ◌+◌, ◌<◌, ◌≤◌, arith, not, ◌&&◌, ◌==◌, Returns, returns}
use crisp.Base.Runs.{Returns-if}
use crisp.Array.{Array, load-ok}
use crisp.CString.{strcmp, strcmp_loop}
use crisp.CString.Search.{IsString}

module _ (a b : Array) (n m : ℕ) (sa : IsString a n) (sb : IsString b m) where
  strcmp_loop-Returns :
      (left i : ℕ) → i ≤ n → i ≤ m → n < i + left → Returns (λ _. Unit {0}) (strcmp_loop a b left i)
  unfolding strcmp_loop
  strcmp_loop-Returns zero i ha hb enough = absurd (omega arith)
  strcmp_loop-Returns (suc left) i ha hb enough =
      rw (load-ok a i (omega (arith, sa.room)), load-ok b i (omega (arith, sb.room)))
        (Returns-if (not (a.at i == 0) && not (b.at i == 0))
          (λ e.
            Returns-if (not (a.at i == b.at i)) (λ _. returns tt)
              (λ _.
                strcmp_loop-Returns left (i + 1) (ground (arith, sa.terminator))
                  (ground (arith, sb.terminator)) (omega arith)))
          (λ _. returns tt))

  pub strcmp-Returns : Returns (λ _. Unit {0}) (strcmp a b)
  unfolding strcmp
  strcmp-Returns =
      strcmp_loop-Returns (a.size + 1) 0 (omega arith) (omega arith) (omega (arith, sa.room))
