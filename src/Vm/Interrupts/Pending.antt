-- ===== src/Vm/Interrupts/Pending.antt =====
-- The bitmap of `c32_raise_interrupt` and `check_interrupts` as a set of interrupt numbers.
use crisp.Base.{
  ℕ, ◌-◌, ◌/◌, ◌%◌, ◌^◌, ◌<◌, ◌≡◌, refl, arith, Bool, true, not, ◌&&◌, ◌||◌, ◌==◌, bit_and, bit_or,
  u8,
}
use crisp.Base.Table.{all_below, all_below_sound}
use crisp.Vm.State.{Vm}
use crisp.Vm.Interrupts.{raise_interrupt, is_pending, clear_pending}

same : Bool → Bool → Bool
same true b = b
same _ b = not b

abbrev has_bit : ℕ → ℕ → Bool
has_bit b l = not (bit_and b (2 ^ l) == 0)

-- Setting and clearing one bit of a byte, for all bytes and bits.
set_bit_table :
    all_below 256 (λ b.
      all_below 8
        (λ k. all_below 8 (λ l. same (has_bit (u8 (bit_or b (2 ^ k))) l) (l == k || has_bit b l))))
    ≡ true
unfolding all_below same
set_bit_table = refl

clear_bit_table :
    all_below 256 (λ b. all_below 8 (λ k.
      all_below 8 (λ l. same (has_bit (bit_and b (255 - 2 ^ k)) l) (not (l == k) && has_bit b l))))
    ≡ true
unfolding all_below same
clear_bit_table = refl

same-eq : (a b : Bool) → same a b ≡ true → a ≡ b
unfolding same
same-eq a b h = ground arith

set_bit :
    (b k l : ℕ)
    → b < 256
    → k < 8
    → l < 8
    → has_bit (u8 (bit_or b (2 ^ k))) l ≡ (l == k || has_bit b l)
set_bit b k l hb hk hl =
    same-eq _ _ (
      all_below_sound 8 _ (all_below_sound 8 _ (all_below_sound 256 _ set_bit_table b hb) k hk) l
        hl)

clear_bit :
    (b k l : ℕ)
    → b < 256
    → k < 8
    → l < 8
    → has_bit (bit_and b (255 - 2 ^ k)) l ≡ (not (l == k) && has_bit b l)
clear_bit b k l hb hk hl = same-eq _ _ (
    all_below_sound 8 _ (all_below_sound 8 _ (all_below_sound 256 _ clear_bit_table b hb) k hk) l
      hl)

-- The bytes of the bitmap are bytes.
abbrev pub AreBitmapBytes : Vm → Type 0
AreBitmapBytes vm = (i : ℕ) → i < 32 → vm.interrupts.pending i < 2 ^ 8

module _ (vm : Vm) (bytes : AreBitmapBytes vm) (n k : ℕ) (hn : n < 256) (hk : k < 256) where
  -- If the bitmap holds bytes, the pending numbers below 256 after `c32_raise_interrupt(vm, n)`
  -- are `n` and those from before.
  pub is_pending-raise_interrupt : is_pending (raise_interrupt vm n) k ≡ (k == n || is_pending vm k)
  unfolding is_pending raise_interrupt
  is_pending-raise_interrupt =
      ground (
        arith,
        bytes (n / 8) (omega arith),
        set_bit (vm.interrupts.pending (n / 8)) (n % 8) (k % 8),
      )

  -- If the bitmap holds bytes, the pending numbers below 256 after the bit of `n` is cleared are
  -- those from before but `n`.
  pub is_pending-clear_pending :
      is_pending (clear_pending vm n) k ≡ (not (k == n) && is_pending vm k)
  unfolding is_pending clear_pending
  is_pending-clear_pending = ground (
    arith,
    bytes (n / 8) (omega arith),
    clear_bit (vm.interrupts.pending (n / 8)) (n % 8) (k % 8),
  )
