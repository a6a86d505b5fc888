-- ===== src/Vm/Interrupts/Frame.antt =====
-- The register frame that a dispatch saves and IRET reads, in src/vm/c32_vm.c.
use crisp.Base.{
  ℕ, zero, suc, ◌+◌, ◌-◌, ◌*◌, ◌^◌, ◌≤◌, ◌<◌, ◌≡◌, ◌⊎◌, refl, arith, ok, ap, ◌∙◌, fun_ext, leb, ltb,
  ◌&&◌, ◌==◌, Bool-cases, if◌then◌else◌, inl, inr,
}
use crisp.Array.{Array, update}
use crisp.Vm.Memory.{little_endian, write_word, read_word}
use crisp.Vm.Memory.Laws.{
  AreBytes, word_at, with_word, write_word_on-with_word, read_word_on-word_at, word_at-with_word,
  with_word-outside, byte_of-lt,
}
use crisp.Vm.Interrupts.{save_regs}
use crisp.Vm.Execute.System.{restore_regs}

-- `m'` is `m` with the registers from `i` up to `j` written from `addr + 4 * i` on.
pub record Saved (regs : ℕ → ℕ) (addr i j : ℕ) (m m' : Array) : Type 0 where
  pub same_size : m'.size ≡ m.size
  pub bytes : AreBytes m'
  pub inside : (k : ℕ) → i ≤ k → k < j → word_at m' (addr + k * 4) ≡ regs k
  pub outside : (a : ℕ) → (a < addr + i * 4) ⊎ (addr + j * 4 ≤ a) → m'.at a ≡ m.at a

pub word_at-eq :
    (m m' : Array) (a : ℕ)
    → ((k : ℕ) → k < 4 → m'.at (a + k) ≡ m.at (a + k))
    → word_at m' a ≡ word_at m a
word_at-eq m m' a h = ground (arith, h 0, h 1, h 2, h 3)

abbrev written : Array → ℕ → ℕ → Array
written m a v = record m { at = with_word m.at a v }

written-AreBytes : (m : Array) (a v : ℕ) → AreBytes m → AreBytes (written m a v)
written-AreBytes m a v bytes k = ground (arith, bytes k, byte_of-lt v (0 + (k - a)))

Saved-cons :
    (regs : ℕ → ℕ) (addr i j : ℕ) (m m' : Array)
    → i < j
    → regs i < 2 ^ 32
    → Saved regs addr (i + 1) j (written m (addr + i * 4) (regs i)) m'
    → Saved regs addr i j m m'
Saved-cons regs addr i j m m' below h s = record {
  same_size = s.same_size;
  bytes = s.bytes;
  inside = λ k p q. elim (Bool-cases (k == i)) [
    | inl e ↦ ground (arith, first)
    | inr e ↦ s.inside k (ground arith) q
  ];
  outside = λ a p.
      s.outside a (ground arith) ∙ with_word-outside m.at (addr + i * 4) (regs i) a (ground arith);
}
  where
    first : word_at m' (addr + i * 4) ≡ regs i
    first =
        word_at-eq (written m (addr + i * 4) (regs i)) m' (addr + i * 4)
          (λ k below'. s.outside (addr + i * 4 + k) (inl (omega arith)))
        ∙ word_at-with_word m (addr + i * 4) (regs i) h

pub save_regs-Saved :
    (regs : ℕ → ℕ)
    → ((k : ℕ) → k < 32 → regs k < 2 ^ 32)
    → (addr left i j : ℕ) (m : Array) → i + left ≡ j
    → j ≤ 32
    → addr + j * 4 ≤ m.size
    → AreBytes m
    → (m' : Array) × (save_regs regs addr left i m ≡ ok m') × Saved regs addr i j m m'
unfolding save_regs write_word
save_regs-Saved regs h addr zero i j m end below room bytes = (
  m,
  refl,
  record {
    same_size = refl;
    bytes = bytes;
    inside = λ k p q. absurd (omega arith);
    outside = λ a p. refl;
  },
)
save_regs-Saved regs h addr (suc left) i j m end below room bytes =
    let m₁ : Array = written m (addr + i * 4) (regs i) in
    let (m', e, s) =
      save_regs-Saved regs h addr left (i + 1) j m₁ (omega arith) below room
        (written-AreBytes m (addr + i * 4) (regs i) bytes) in
    (
      m',
      rw
          (write_word_on-with_word little_endian m (addr + i * 4) (regs i) (omega arith)
            (h i (omega arith)))
          e,
      Saved-cons regs addr i j m m' (omega arith) (h i (omega arith)) s,
    )

-- The registers that are read back from a frame.
abbrev pub restored : Array → ℕ → ℕ → ℕ → (ℕ → ℕ) → ℕ → ℕ
restored m addr i j regs k = if leb i k && ltb k j then word_at m (addr + k * 4) else regs k

pub restore_regs-restored :
    (m : Array) (addr left i j : ℕ) (regs : ℕ → ℕ)
    → AreBytes m
    → i + left ≡ j
    → addr + j * 4 ≤ m.size
    → restore_regs m addr left i regs ≡ ok (restored m addr i j regs)
unfolding restore_regs read_word
restore_regs-restored m addr zero i j regs bytes end room = ap ok (fun_ext λ k. ground arith)
restore_regs-restored m addr (suc left) i j regs bytes end room =
    rw (read_word_on-word_at little_endian m (addr + i * 4) (omega arith) bytes) (
      restore_regs-restored m addr left (i + 1) j (update regs i (word_at m (addr + i * 4))) bytes
        (omega arith) room
      ∙ ap ok (fun_ext λ k. ground arith))
