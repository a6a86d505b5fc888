-- ===== src/Vm/Invariant/Memory.antt =====
-- Well-formed states and the guest memory accessors.
use crisp.Base.{ℕ, ◌+◌, ◌-◌, ◌^◌, ◌<◌, ◌≡◌, refl, arith, leb, Bool-cases, inl, inr, ltb}
use crisp.Array.{Array, load, store}
use crisp.Vm.Memory.{
  little_endian, read_word, read_half, read_byte, write_word, write_half, write_byte,
}
use crisp.Vm.Memory.Laws.{
  AreBytes, read_word_on-word_at, read_half_on-half_at, write_word_on-with_word,
  write_half_on-with_half, byte_of-lt, read_word_on-fault, read_half_on-fault, write_word_on-fault,
  write_half_on-fault,
}
use crisp.Vm.State.{Vm}
use crisp.Vm.Invariant.{IsWord, Fits, Post, ends, faults, Post-if}

-- The memory `m` with some of its bytes replaced.
abbrev pub IsRewrite : Array → Array → Type 0
IsRewrite m m' = AreBytes m' × (m'.size ≡ m.size)

module _ (m : Array) (bytes : AreBytes m) where
  pub read_word-IsWord : (a : ℕ) → Post IsWord (read_word m a)
  unfolding read_word
  read_word-IsWord a = elim (Bool-cases (leb (a + 4) m.size)) [
    | inl e ↦
        rw (read_word_on-word_at little_endian m a (ground arith) bytes)
          (ends (omega (arith, bytes a, bytes (a + 1), bytes (a + 2), bytes (a + 3))))
    | inr e ↦ rw (read_word_on-fault little_endian m a (ground arith)) faults
  ]

  pub read_half-IsHalf : (a : ℕ) → Post (λ h. h < 2 ^ 16) (read_half m a)
  unfolding read_half
  read_half-IsHalf a = elim (Bool-cases (leb (a + 2) m.size)) [
    | inl e ↦
        rw (read_half_on-half_at little_endian m a (ground arith) bytes)
          (ends (omega (arith, bytes a, bytes (a + 1))))
    | inr e ↦ rw (read_half_on-fault little_endian m a (ground arith)) faults
  ]

  pub read_byte-IsByte : (a : ℕ) → Post (λ b. b < 2 ^ 8) (read_byte m a)
  unfolding read_byte load
  read_byte-IsByte a = Post-if (ltb a m.size) (λ _. ends (bytes a)) (λ _. faults)

  pub write_word-IsRewrite : (a v : ℕ) → IsWord v → Post (IsRewrite m) (write_word m a v)
  unfolding write_word
  write_word-IsRewrite a v h = elim (Bool-cases (leb (a + 4) m.size)) [
    | inl e ↦
        rw (write_word_on-with_word little_endian m a v (ground arith) h)
          (ends (λ j. ground (arith, bytes j, byte_of-lt v (0 + (j - a))), refl))
    | inr e ↦ rw (write_word_on-fault little_endian m a v (ground arith)) faults
  ]

  pub write_half-IsRewrite : (a v : ℕ) → v < 2 ^ 16 → Post (IsRewrite m) (write_half m a v)
  unfolding write_half
  write_half-IsRewrite a v h = elim (Bool-cases (leb (a + 2) m.size)) [
    | inl e ↦
        rw (write_half_on-with_half little_endian m a v (ground arith) h)
          (ends (λ j. ground (arith, bytes j, byte_of-lt v (0 + (j - a))), refl))
    | inr e ↦ rw (write_half_on-fault little_endian m a v (ground arith)) faults
  ]

  pub write_byte-IsRewrite : (a v : ℕ) → v < 2 ^ 8 → Post (IsRewrite m) (write_byte m a v)
  unfolding write_byte store
  write_byte-IsRewrite a v h =
      Post-if (ltb a m.size) (λ _. ends (λ j. ground (arith, bytes j), refl)) (λ _. faults)

pub with_rewrite-Fits :
    {vm : Vm} (m : Array) → Fits vm → IsRewrite vm.memory m → Fits (record vm { memory = m })
with_rewrite-Fits m f (bytes, same) = grind arith
