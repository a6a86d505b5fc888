-- ===== src/Vm/Interrupts/Service.antt =====
-- A pending interrupt over a sequence of `check_interrupts`.
use crisp.Base.{
  ℕ, zero, suc, ◌+◌, ◌*◌, ◌/◌, ◌%◌, ◌^◌, bit_and, ◌≤◌, ◌<◌, ◌≡◌, refl, ap, ◌∙◌, arith, Bool, true,
  false, not, ◌&&◌, ◌==◌, if◌then◌else◌, ok, Bool-cases, inl, inr,
}
use crisp.Vm.State.{Vm}
use crisp.Vm.Interrupts.{dispatched, is_pending, clear_pending, check_interrupts}
use crisp.Vm.Interrupts.Pending.{is_pending-clear_pending}
use crisp.Vm.Interrupts.Priority.{check_interrupts-dispatch}
use crisp.Vm.Interrupts.Return.{Entered, dispatch-Entered}
use crisp.Vm.Invariant.{Fits}

-- The first number with a property.
record IsFirst (p : ℕ → Bool) (n m : ℕ) : Type 0 where
  most : m ≤ n
  holds : p m ≡ true
  lowest : (k : ℕ) → k < m → p k ≡ false

lowest_from :
    (p : ℕ → Bool) (n left i : ℕ)
    → i + left ≡ n
    → p n ≡ true
    → ((k : ℕ) → k < i → p k ≡ false)
    → (m : ℕ) × IsFirst p n m
lowest_from p n zero i end here below =
    let at : i ≡ n = omega arith in
    (i, record { most = omega arith; holds = rw at here; lowest = below })
lowest_from p n (suc left) i end here below = elim (Bool-cases (p i)) [
  | inl e ↦ (i, record { most = omega arith; holds = e; lowest = below })
  | inr e ↦ lowest_from p n left (i + 1) (omega arith) here (λ k h. elim (Bool-cases (k == i)) [
    | inl same ↦ let at : k ≡ i = ground arith in rw at e
    | inr other ↦ below k (ground arith)
  ])
]

-- How many numbers below a bound have a property.
abbrev count : (ℕ → Bool) → ℕ → ℕ
count p zero = 0
count p (suc n) = (if p n then 1 else 0) + count p n

count-le : (p : ℕ → Bool) (n : ℕ) → count p n ≤ n
count-le p zero = omega arith
count-le p (suc n) = ground (arith, count-le p n)

-- One number fewer.
count-same :
    (p q : ℕ → Bool) (n m : ℕ)
    → n ≤ m
    → ((k : ℕ) → k < n → q k ≡ (not (k == m) && p k))
    → count q n ≡ count p n
count-same p q zero m h same = refl
count-same p q (suc n) m h same =
    let other : (n == m) ≡ false = ground arith in
    rw (same n (omega arith), other, count-same p q n m (omega arith) (λ k b. same k (omega arith)))
      refl

count-remove :
    (p q : ℕ → Bool) (n m : ℕ)
    → m < n
    → p m ≡ true
    → ((k : ℕ) → k < n → q k ≡ (not (k == m) && p k))
    → count p n ≡ suc (count q n)
count-remove p q zero m h here removed = absurd (omega arith)
count-remove p q (suc n) m h here removed = elim (Bool-cases (n == m)) [
  | inl e ↦
      let at : n ≡ m = ground arith in
      let first : p n ≡ true = rw at here in
      rw
        (
          removed n (omega arith),
          e,
          first,
          count-same p q n m (omega arith) (λ k b. removed k (omega arith)),
        )
        (omega arith)
  | inr e ↦
      rw
        (
          removed n (omega arith),
          e,
          count-remove p q n m (ground arith) here (λ k b. removed k (omega arith)),
        )
        (omega arith)
]

same_bitmap :
    (a b : Vm) (k : ℕ)
    → a.interrupts.pending ≡ b.interrupts.pending
    → is_pending a k ≡ is_pending b k
unfolding is_pending
same_bitmap a b k e = ap (λ p. not (bit_and (p (k / 8)) (2 ^ (k % 8)) == 0)) e

-- A machine at each check of its interrupts, with interrupts enabled, well-formed, and with room
-- for a frame and a vector. Between two checks no number up to `n` is raised or cleared but by the
-- dispatch.
pub record Waits (at : ℕ → Vm) (n : ℕ) : Type 0 where
  pub fits : (i : ℕ) → Fits (at i)
  pub enabled : (i : ℕ) → (at i).interrupts.enabled ≡ true
  pub stack : (i : ℕ) → 128 ≤ (at i).regs 29
  pub room : (i : ℕ) → (at i).regs 29 ≤ (at i).memory_size
  pub vectors : (i : ℕ) → n * 8 + 4 ≤ (at i).memory_size
  pub kept :
      (i : ℕ) (h : Vm)
      → check_interrupts (at i) ≡ ok (dispatched, h)
      → (k : ℕ) → k ≤ n
      → is_pending (at (i + 1)) k ≡ is_pending h k

module _ (at : ℕ → Vm) (n : ℕ) (below : n < 255) (w : Waits at n) where
  -- The check at `i` dispatches `m`.
  abbrev Dispatches : ℕ → ℕ → Type 0
  Dispatches i m = (h : Vm) × (check_interrupts (at i) ≡ ok (dispatched, h)) × Entered (at i) m h

  dispatch_lowest : (i m : ℕ) → IsFirst (is_pending (at i)) n m → Dispatches i m
  dispatch_lowest i m f =
      let (h, run, entered) =
        dispatch-Entered (at i) (w.fits i) m (omega (arith, f.most, w.vectors i)) (w.stack i)
          (w.room i) in
      (
        h,
        check_interrupts-dispatch (at i) m (w.enabled i) (omega (arith, f.most)) f.holds f.lowest
            ∙ run,
        entered,
      )

  -- At the next check the numbers are the same but for the one that was dispatched.
  next_pending :
      (i m : ℕ)
      → m ≤ n
      → Dispatches i m
      → (k : ℕ) → k ≤ n
      → is_pending (at (i + 1)) k ≡ (not (k == m) && is_pending (at i) k)
  next_pending i m h (handler, run, entered) k b =
      w.kept i handler run k b
      ∙ same_bitmap handler (clear_pending (at i) m) k entered.pending
      ∙ is_pending-clear_pending (at i) (w.fits i).pending m k (omega arith) (omega arith)

  -- If that was another number than `n`, fewer numbers below `n` are pending at the next check.
  fewer :
      (i m : ℕ)
      → IsFirst (is_pending (at i)) n m
      → m < n
      → count (is_pending (at i)) n ≡ suc (count (is_pending (at (i + 1))) n)
  fewer i m f less =
      count-remove (is_pending (at i)) (is_pending (at (i + 1))) n m less f.holds
        (λ k b. next_pending i m f.most (dispatch_lowest i m f) k (omega arith))

  still_pending :
      (i m : ℕ)
      → IsFirst (is_pending (at i)) n m
      → m < n
      → is_pending (at i) n ≡ true
      → is_pending (at (i + 1)) n ≡ true
  still_pending i m f less waiting =
      let other : (n == m) ≡ false = ground arith in
      next_pending i m f.most (dispatch_lowest i m f) n (omega arith) ∙ rw (other, waiting) refl

  lowest_pending : (i : ℕ) → is_pending (at i) n ≡ true → (m : ℕ) × IsFirst (is_pending (at i)) n m
  lowest_pending i waiting =
      lowest_from (is_pending (at i)) n n 0 (omega arith) waiting (λ k b. absurd (omega arith))

  -- `left` is one more than the number of pending numbers before `n`.
  serves :
      (left i : ℕ)
      → count (is_pending (at i)) n < left
      → is_pending (at i) n ≡ true
      → (j : ℕ) × (j < i + left) × Dispatches j n
  serves zero i few waiting = absurd (omega arith)
  serves (suc left) i few waiting =
      let (m, f) = lowest_pending i waiting in
      elim (Bool-cases (m == n)) [
        | inl e ↦
            let here : m ≡ n = ground arith in (i, omega arith, rw here at (dispatch_lowest i m f))
        | inr e ↦
            let less : m < n = ground (arith, f.most) in
            let (j, soon, served) =
              serves left (i + 1) (omega (arith, fewer i m f less))
                (still_pending i m f less waiting) in
            (j, omega arith, served)
      ]

  -- Consider a machine at the checks of its interrupts, one after the other, each time well-formed,
  -- with interrupts enabled and with room for the vectors up to `n` and for a frame, such that
  -- between two checks no number up to `n` is raised or cleared but by the dispatch. Then an
  -- interrupt `n` below 255 that is pending at the first check is dispatched at one of the first
  -- `n + 1` checks, and its handler starts there.
  pub check_interrupts-Entered :
      is_pending (at 0) n ≡ true
      → (j : ℕ) × (j ≤ n)
        × (h : Vm) × (check_interrupts (at j) ≡ ok (dispatched, h))
        × Entered (at j) n h
  check_interrupts-Entered waiting =
      let (j, soon, served) =
        serves (n + 1) 0 (omega (arith, count-le (is_pending (at 0)) n)) waiting in
      let (h, run, entered) = served in (j, omega arith, h, run, entered)
