-- ===== src/Vm/Memory/Laws.antt =====
-- What the accessors read and write, on either kind of host.
use Prim.Native.Nat.{bit_and, bit_or}
use crisp.Base.{
  ℕ, zero, suc, ◌+◌, ◌-◌, ◌*◌, ◌/◌, ◌%◌, ◌^◌, ◌≤◌, ◌<◌, ◌≡◌, ◌⊎◌, arith, fun_ext, ap, ◌∙◌, ok,
  fault, inl, inr,
}
use crisp.Base.Bits.{and_mask, and_field, or_fields_swapped}
use crisp.Array.{Array}
use crisp.CString.Copy.{splice, memcpy-splice, memcpy-fault}
use crisp.Vm.Memory.{
  Host, little_endian, big_endian, swap32, swap16, word_of, half_of, byte_of, blank, read_word_on,
  read_half_on, write_word_on, write_half_on, object32, object16,
}

-- Swapping reverses the four bytes of a word.
pub swap32-word_of :
    (b0 b1 b2 b3 : ℕ)
    → b0 < 2 ^ 8
    → b1 < 2 ^ 8
    → b2 < 2 ^ 8
    → b3 < 2 ^ 8
    → swap32 (word_of b0 b1 b2 b3) ≡ word_of b3 b2 b1 b0
unfolding swap32
swap32-word_of b0 b1 b2 b3 h0 h1 h2 h3 = rw (top, third, second, low, j1, j2) j3
  where
    top : bit_and (word_of b0 b1 b2 b3) 0xFF000000 ≡ b3 * 2 ^ 24
    top = and_field 24 8 _ ∙ omega arith

    third : bit_and (word_of b0 b1 b2 b3) 0x00FF0000 ≡ b2 * 2 ^ 16
    third = and_field 16 8 _ ∙ omega arith

    second : bit_and (word_of b0 b1 b2 b3) 0x0000FF00 ≡ b1 * 2 ^ 8
    second = and_field 8 8 _ ∙ omega arith

    low : bit_and (word_of b0 b1 b2 b3) 0x000000FF ≡ b0
    low = and_mask 8 _ ∙ omega arith

    j1 : bit_or (b3 * 2 ^ 24 / 2 ^ 24) (b2 * 2 ^ 16 / 2 ^ 8) ≡ b2 * 2 ^ 8 + b3
    j1 = ground (arith, or_fields_swapped 8 b2 b3)

    j2 : bit_or (b2 * 2 ^ 8 + b3) (b1 * 2 ^ 8 * 2 ^ 8 % 2 ^ 32) ≡ b1 * 2 ^ 16 + b2 * 2 ^ 8 + b3
    j2 = ground (arith, or_fields_swapped 16 b1 (b2 * 2 ^ 8 + b3))

    j3 : bit_or (b1 * 2 ^ 16 + b2 * 2 ^ 8 + b3) (b0 * 2 ^ 24 % 2 ^ 32) ≡ word_of b3 b2 b1 b0
    j3 = ground (arith, or_fields_swapped 24 b0 (b1 * 2 ^ 16 + b2 * 2 ^ 8 + b3))

pub swap16-half_of : (b0 b1 : ℕ) → b0 < 2 ^ 8 → b1 < 2 ^ 8 → swap16 (half_of b0 b1) ≡ half_of b1 b0
unfolding swap16
swap16-half_of b0 b1 h0 h1 =
    ground
      (arith, and_field 8 8 (half_of b0 b1), and_mask 8 (half_of b0 b1), or_fields_swapped 8 b0 b1)

-- Every cell of the array is a byte.
abbrev pub AreBytes : Array → Type 0
AreBytes m = (i : ℕ) → m.at i < 2 ^ 8

-- The four bytes, and the two bytes, from `addr` on.
abbrev pub word_at : Array → ℕ → ℕ
word_at m a = word_of (m.at a) (m.at (a + 1)) (m.at (a + 2)) (m.at (a + 3))

abbrev pub half_at : Array → ℕ → ℕ
half_at m a = half_of (m.at a) (m.at (a + 1))

pub word_at-lt : (m : Array) → AreBytes m → (a : ℕ) → word_at m a < 2 ^ 32
word_at-lt m bytes a = omega (arith, bytes a, bytes (a + 1), bytes (a + 2), bytes (a + 3))

-- The contents after a word or halfword `v` is written at `addr`, the lowest byte first.
abbrev pub with_word : (ℕ → ℕ) → ℕ → ℕ → ℕ → ℕ
with_word f a v = splice f a (byte_of v) 0 4

abbrev pub with_half : (ℕ → ℕ) → ℕ → ℕ → ℕ → ℕ
with_half f a v = splice f a (byte_of v) 0 2

-- A word inside a buffer of bytes is read from its four bytes, lowest first, on a host of either
-- byte order.
pub read_word_on-word_at :
    (host : Host) (m : Array) (a : ℕ)
    → a + 4 ≤ m.size
    → AreBytes m
    → read_word_on host m a ≡ ok (word_at m a)
unfolding read_word_on
read_word_on-word_at little_endian m a h bytes =
    rw (memcpy-splice (blank 4) 0 m a 4 (omega arith) h) (ground arith)
read_word_on-word_at big_endian m a h bytes = rw (memcpy-splice (blank 4) 0 m a 4 (omega arith) h) (
    ground (
      arith,
      swap32-word_of (m.at (a + 3)) (m.at (a + 2)) (m.at (a + 1)) (m.at a),
      bytes a,
      bytes (a + 1),
      bytes (a + 2),
      bytes (a + 3),
    ))

-- A halfword inside a buffer of bytes is read from its two bytes, lowest first, on a host of
-- either byte order.
pub read_half_on-half_at :
    (host : Host) (m : Array) (a : ℕ)
    → a + 2 ≤ m.size
    → AreBytes m
    → read_half_on host m a ≡ ok (half_at m a)
unfolding read_half_on
read_half_on-half_at little_endian m a h bytes =
    rw (memcpy-splice (blank 2) 0 m a 2 (omega arith) h) (ground arith)
read_half_on-half_at big_endian m a h bytes =
    rw (memcpy-splice (blank 2) 0 m a 2 (omega arith) h)
      (ground (arith, swap16-half_of (m.at (a + 1)) (m.at a), bytes a, bytes (a + 1)))

-- A byte of the swapped word, counted from the other end.
byte_of-swap32 : (v i : ℕ) → v < 2 ^ 32 → i < 4 → byte_of (swap32 v) (3 - i) ≡ byte_of v i
byte_of-swap32 v i hv hi = rw reversed (bytes i hi)
  where
    reversed : swap32 v ≡ word_of (byte_of v 3) (byte_of v 2) (byte_of v 1) (byte_of v 0)
    reversed =
        ap swap32 {y = word_of (byte_of v 0) (byte_of v 1) (byte_of v 2) (byte_of v 3)}
          (omega arith)
        ∙ swap32-word_of _ _ _ _ (omega arith) (omega arith) (omega arith) (omega arith)

    bytes :
        (i : ℕ)
        → i < 4
        → byte_of (word_of (byte_of v 3) (byte_of v 2) (byte_of v 1) (byte_of v 0)) (3 - i)
          ≡ byte_of v i
    bytes zero h = omega arith
    bytes (suc zero) h = omega arith
    bytes (suc (suc zero)) h = omega arith
    bytes (suc (suc (suc zero))) h = omega arith
    bytes (suc (suc (suc (suc i)))) h = absurd (omega arith)

byte_of-swap16 : (v i : ℕ) → v < 2 ^ 16 → i < 2 → byte_of (swap16 v) (1 - i) ≡ byte_of v i
byte_of-swap16 v i hv hi = rw reversed (bytes i hi)
  where
    reversed : swap16 v ≡ half_of (byte_of v 1) (byte_of v 0)
    reversed =
        ap swap16 {y = half_of (byte_of v 0) (byte_of v 1)} (omega arith)
        ∙ swap16-half_of _ _ (omega arith) (omega arith)

    bytes : (i : ℕ) → i < 2 → byte_of (half_of (byte_of v 1) (byte_of v 0)) (1 - i) ≡ byte_of v i
    bytes zero h = omega arith
    bytes (suc zero) h = omega arith
    bytes (suc (suc i)) h = absurd (omega arith)

-- A word is written inside the buffer as its four bytes, lowest first, on a host of either byte
-- order, and nothing else changes.
pub write_word_on-with_word :
    (host : Host) (m : Array) (a v : ℕ)
    → a + 4 ≤ m.size
    → v < 2 ^ 32
    → write_word_on host m a v ≡ ok (record m { at = with_word m.at a v })
unfolding write_word_on
write_word_on-with_word little_endian m a v h hv =
    memcpy-splice m a (object32 little_endian v) 0 4 h (omega arith)
write_word_on-with_word big_endian m a v h hv =
    memcpy-splice m a (object32 big_endian (swap32 v)) 0 4 h (omega arith)
    ∙ ap (λ f. ok (record m { at = f }))
        (fun_ext λ j. ground (arith, byte_of-swap32 v (0 + (j - a))))

-- A halfword is written inside the buffer as its two bytes, lowest first, on a host of either byte
-- order, and nothing else changes.
pub write_half_on-with_half :
    (host : Host) (m : Array) (a v : ℕ)
    → a + 2 ≤ m.size
    → v < 2 ^ 16
    → write_half_on host m a v ≡ ok (record m { at = with_half m.at a v })
unfolding write_half_on
write_half_on-with_half little_endian m a v h hv =
    memcpy-splice m a (object16 little_endian v) 0 2 h (omega arith)
write_half_on-with_half big_endian m a v h hv =
    memcpy-splice m a (object16 big_endian (swap16 v)) 0 2 h (omega arith)
    ∙ ap (λ f. ok (record m { at = f }))
        (fun_ext λ j. ground (arith, byte_of-swap16 v (0 + (j - a))))

module _ (f : ℕ → ℕ) (a v : ℕ) where
  pub with_word-inside : (i : ℕ) → i < 4 → with_word f a v (a + i) ≡ byte_of v i
  with_word-inside i h = ground arith

  pub with_word-outside : (j : ℕ) → (j < a) ⊎ (a + 4 ≤ j) → with_word f a v j ≡ f j
  with_word-outside j h = ground arith

  pub with_half-inside : (i : ℕ) → i < 2 → with_half f a v (a + i) ≡ byte_of v i
  with_half-inside i h = ground arith

  pub with_half-outside : (j : ℕ) → (j < a) ⊎ (a + 2 ≤ j) → with_half f a v j ≡ f j
  with_half-outside j h = ground arith

pub byte_of-lt : (v i : ℕ) → byte_of v i < 2 ^ 8
byte_of-lt v zero = omega arith
byte_of-lt v (suc zero) = omega arith
byte_of-lt v (suc (suc zero)) = omega arith
byte_of-lt v (suc (suc (suc i))) = omega arith

-- What was written is read back.
pub word_at-with_word :
    (m : Array) (a v : ℕ) → v < 2 ^ 32 → word_at (record m { at = with_word m.at a v }) a ≡ v
word_at-with_word m a v hv = ground (
  arith,
  with_word-inside m.at a v 0,
  with_word-inside m.at a v 1,
  with_word-inside m.at a v 2,
  with_word-inside m.at a v 3,
)

pub half_at-with_half :
    (m : Array) (a v : ℕ) → v < 2 ^ 16 → half_at (record m { at = with_half m.at a v }) a ≡ v
half_at-with_half m a v hv =
    ground (arith, with_half-inside m.at a v 0, with_half-inside m.at a v 1)

-- An access that would leave the buffer is undefined behaviour.
module _ (host : Host) (m : Array) (a : ℕ) where
  pub read_word_on-fault : m.size < a + 4 → read_word_on host m a ≡ fault
  unfolding read_word_on
  read_word_on-fault h = rw (memcpy-fault (blank 4) 0 m a 4 (omega arith) (inl h))

  pub read_half_on-fault : m.size < a + 2 → read_half_on host m a ≡ fault
  unfolding read_half_on
  read_half_on-fault h = rw (memcpy-fault (blank 2) 0 m a 2 (omega arith) (inl h))

  pub write_word_on-fault : (v : ℕ) → m.size < a + 4 → write_word_on host m a v ≡ fault
  unfolding write_word_on
  write_word_on-fault v h = memcpy-fault m a _ 0 4 (omega arith) (inr h)

  pub write_half_on-fault : (v : ℕ) → m.size < a + 2 → write_half_on host m a v ≡ fault
  unfolding write_half_on
  write_half_on-fault v h = memcpy-fault m a _ 0 2 (omega arith) (inr h)
