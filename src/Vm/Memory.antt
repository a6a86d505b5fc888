-- ===== src/Vm/Memory.antt =====
-- Endianness conversion and the guest memory accessors of src/vm/c32_vm.c. `addr` is an array of
-- bytes and an offset into it.
pub mod Laws
use crisp.Base.{
  ℕ, suc, ◌+◌, ◌*◌, ◌/◌, ◌%◌, ◌^◌, ◌-◌, bit_and, bit_or, Outcome, ok, ◌>>=◌, u16, u32, zero,
}
use crisp.Array.{Array, load, store}
use crisp.CString.{memcpy}

-- The byte order of the machine that the VM is compiled for: C32_HOST_BIG_ENDIAN or not.
pub data Host : Type 0 where
  little_endian big_endian : Host

-- `(val & m) << k` and the like are done in 32 bits.
unfoldable pub swap32 : ℕ → ℕ
swap32 val =
    bit_or
      (bit_or (bit_or (bit_and val 0xFF000000 / 2 ^ 24) (bit_and val 0x00FF0000 / 2 ^ 8))
        (u32 (bit_and val 0x0000FF00 * 2 ^ 8)))
      (u32 (bit_and val 0x000000FF * 2 ^ 24))

unfoldable pub swap16 : ℕ → ℕ
swap16 val = u16 (bit_or (bit_and val 0xFF00 / 2 ^ 8) (bit_and val 0x00FF * 2 ^ 8))

-- NEED_ENDIAN_SWAP, applied to a word or a halfword.
abbrev pub swapped32 : Host → ℕ → ℕ
swapped32 little_endian val = val
swapped32 big_endian val = swap32 val

abbrev pub swapped16 : Host → ℕ → ℕ
swapped16 little_endian val = val
swapped16 big_endian val = swap16 val

-- Four and two bytes as a number, the lowest first.
abbrev pub word_of : ℕ → ℕ → ℕ → ℕ → ℕ
word_of b0 b1 b2 b3 = b0 + 2 ^ 8 * b1 + 2 ^ 16 * b2 + 2 ^ 24 * b3

abbrev pub half_of : ℕ → ℕ → ℕ
half_of b0 b1 = b0 + 2 ^ 8 * b1

-- The value of a `uint32_t` object from its bytes, on either kind of host, and the object.
abbrev pub value32 : Host → Array → ℕ
value32 little_endian o = word_of (o.at 0) (o.at 1) (o.at 2) (o.at 3)
value32 big_endian o = word_of (o.at 3) (o.at 2) (o.at 1) (o.at 0)

abbrev pub value16 : Host → Array → ℕ
value16 little_endian o = half_of (o.at 0) (o.at 1)
value16 big_endian o = half_of (o.at 1) (o.at 0)

abbrev pub byte_of : ℕ → ℕ → ℕ
byte_of v zero = v % 2 ^ 8
byte_of v (suc zero) = v / 2 ^ 8 % 2 ^ 8
byte_of v (suc (suc zero)) = v / 2 ^ 16 % 2 ^ 8
byte_of v _ = v / 2 ^ 24 % 2 ^ 8

abbrev pub object32 : Host → ℕ → Array
object32 little_endian v = record { size = 4; at = byte_of v }
object32 big_endian v = record { size = 4; at = λ i. byte_of v (3 - i) }

abbrev pub object16 : Host → ℕ → Array
object16 little_endian v = record { size = 2; at = byte_of v }
object16 big_endian v = record { size = 2; at = λ i. byte_of v (1 - i) }

-- An object before it is written; the accessors overwrite every byte of it.
abbrev pub blank : ℕ → Array
blank n = record { size = n; at = λ _. 0 }

unfoldable pub read_word_on : Host → Array → ℕ → Outcome ℕ
read_word_on host m addr = do
  val ← memcpy (blank 4) 0 m addr 4
  ok (swapped32 host (value32 host val))

unfoldable pub read_half_on : Host → Array → ℕ → Outcome ℕ
read_half_on host m addr = do
  val ← memcpy (blank 2) 0 m addr 2
  ok (swapped16 host (value16 host val))

unfoldable pub write_word_on : Host → Array → ℕ → ℕ → Outcome Array
write_word_on host m addr value = memcpy m addr (object32 host (swapped32 host value)) 0 4

unfoldable pub write_half_on : Host → Array → ℕ → ℕ → Outcome Array
write_half_on host m addr value = memcpy m addr (object16 host (swapped16 host value)) 0 2

unfoldable pub read_byte : Array → ℕ → Outcome ℕ
read_byte m addr = load m addr

unfoldable pub write_byte : Array → ℕ → ℕ → Outcome Array
write_byte m addr value = store m addr value

-- The build of the Makefile defines no C32_HOST_BIG_ENDIAN.
unfoldable pub read_word : Array → ℕ → Outcome ℕ
read_word = read_word_on little_endian

unfoldable pub read_half : Array → ℕ → Outcome ℕ
read_half = read_half_on little_endian

unfoldable pub write_word : Array → ℕ → ℕ → Outcome Array
write_word = write_word_on little_endian

unfoldable pub write_half : Array → ℕ → ℕ → Outcome Array
write_half = write_half_on little_endian
