-- ===== src/Asm/Encode.antt =====
-- `c32_encode_instruction` of src/asm/c32_encode.c, and the decoding of `c32_vm_step`.
use crisp.Base.{ℕ, ◌+◌, ◌-◌, ◌^◌, ◌≤◌, ◌<◌, ◌≡◌, refl, arith, Outcome, ok, ◌>>=◌}
use crisp.Array.{Array, update, store, store-ok, load-ok}
use crisp.Vm.Memory.{read_word, write_word, little_endian}
use crisp.Vm.Memory.Laws.{
  AreBytes, word_at, with_word, read_word_on-word_at, write_word_on-with_word, byte_of-lt,
  word_at-with_word,
}
use crisp.Vm.Instruction.{Instruction}
use crisp.Vm.Step.{decode}

-- `c32_encode_instruction(output + p, inst)`
unfoldable pub encode_instruction : Array → ℕ → Instruction → Outcome Array
encode_instruction output p inst = do
  o ← store output p inst.opcode
  o ← store o (p + 1) inst.rs
  o ← store o (p + 2) inst.rt
  o ← store o (p + 3) inst.rd
  write_word o (p + 4) inst.immediate

-- Every field is in the range of its C type.
pub record InRange (i : Instruction) : Type 0 where
  pub opcode : i.opcode < 2 ^ 8
  pub rs : i.rs < 2 ^ 8
  pub rt : i.rt < 2 ^ 8
  pub rd : i.rd < 2 ^ 8
  pub immediate : i.immediate < 2 ^ 32

abbrev pub head : (ℕ → ℕ) → ℕ → Instruction → ℕ → ℕ
head f p i = update (update (update (update f p i.opcode) (p + 1) i.rs) (p + 2) i.rt) (p + 3) i.rd

module _ (m : Array) (p : ℕ) (i : Instruction) (room : p + 8 ≤ m.size) (range : InRange i) where
  abbrev pub encoded : Array
  encoded = record m { at = with_word (head m.at p i) (p + 4) i.immediate }

  pub encode_instruction-encoded : encode_instruction m p i ≡ ok encoded
  unfolding encode_instruction write_word
  encode_instruction-encoded =
      rw
        (
          store-ok m p i.opcode (omega arith),
          store-ok (record m { at = update m.at p i.opcode }) (p + 1) i.rs (omega arith),
          store-ok (record m { at = update (update m.at p i.opcode) (p + 1) i.rs }) (p + 2) i.rt
              (omega arith),
          store-ok
              (record m { at = update (update (update m.at p i.opcode) (p + 1) i.rs) (p + 2) i.rt })
              (p + 3) i.rd (omega arith),
        )
        (write_word_on-with_word little_endian (record m { at = head m.at p i }) (p + 4) i.immediate
          (omega arith) range.immediate)

  pub encoded-AreBytes : AreBytes m → AreBytes encoded
  encoded-AreBytes bytes j =
      ground (arith, bytes j, byte_of-lt i.immediate (0 + (j - (p + 4))), range.rs)

  pub decode-encoded : AreBytes m → decode encoded p ≡ ok i
  unfolding decode read_word
  decode-encoded bytes =
      rw
        (
          load-ok encoded p (omega arith),
          load-ok encoded (p + 1) (omega arith),
          load-ok encoded (p + 2) (omega arith),
          load-ok encoded (p + 3) (omega arith),
          read_word_on-word_at little_endian encoded (p + 4) (omega arith) (encoded-AreBytes bytes),
        )
        (rw (opcode, rs, rt, rd, immediate) refl)
    where
      opcode : encoded.at p ≡ i.opcode
      opcode = ground arith

      rs : encoded.at (p + 1) ≡ i.rs
      rs = ground arith

      rt : encoded.at (p + 2) ≡ i.rt
      rt = ground arith

      rd : encoded.at (p + 3) ≡ i.rd
      rd = ground arith

      immediate : word_at encoded (p + 4) ≡ i.immediate
      immediate =
          word_at-with_word (record m { at = head m.at p i }) (p + 4) i.immediate range.immediate

  -- Encoding an instruction whose fields are in the range of their types into a buffer of bytes,
  -- at an offset with eight bytes of room, and then decoding there, gives the instruction back.
  pub decode-encode_instruction : AreBytes m → (encode_instruction m p i >>= λ o. decode o p) ≡ ok i
  decode-encode_instruction bytes = rw encode_instruction-encoded (decode-encoded bytes)
