-- ===== src/Vm/Privilege/Isolated.antt =====
-- The memory that a program in user mode can change, under paging.
use crisp.Base.{
  ℕ, ◌+◌, ◌*◌, ◌/◌, ◌%◌, ◌^◌, ◌≤◌, ◌<◌, ◌≡◌, ◌≢◌, refl, ap, arith, true, false, not, ◌&&◌, ltb, leb,
  ◌==◌, if◌then◌else◌, Outcome, ok, ◌>>=◌, Option, none, some, u8, u16, u32, Bool-cases, inl, inr,
}
use crisp.Array.{Array, store-ok, store-fault}
use crisp.Vm.Memory.{little_endian, write_word, write_half, write_byte}
use crisp.Vm.Memory.Laws.{
  word_at, write_word_on-with_word, write_word_on-fault, with_word-outside, write_half_on-with_half,
  write_half_on-fault, with_half-outside,
}
use crisp.Vm.State.{Vm, get_reg}
use crisp.Vm.Interrupts.{raise_interrupt}
use crisp.Vm.Mmu.{invalid_address}
use crisp.Vm.Mmu.PageTable.{allows, walk, answer, translate_address-walk}
use crisp.Vm.Instruction.{Instruction}
use crisp.Vm.Opcode.{Opcode, memory, Memory, opcode_of}
use crisp.Vm.Execute.Memory.{data_address, store_with, exec_memory}
use crisp.Vm.Execute.Memory.Words.{effective}
use crisp.Vm.Execute.{exec_opcode, exec_selected, execute}
use crisp.Vm.Invariant.{Fits, Post, ends, faults, Post-bind, Post-mono, Post-ok, get_reg-IsWord}
use crisp.Vm.Privilege.Confined.{Touches, Touches-memory, raise_interrupt-Touches}
use crisp.Vm.Privilege.User.{halted-Touches, exec_opcode-Touches}

-- Where a store may reach behind the end of a frame: not at all if it is aligned to a word, and
-- else by three bytes.
abbrev pub beyond : Instruction → Vm → ℕ
beyond i vm = if effective i vm % 4 == 0 then 0 else 3

-- The entry of a page in the page table.
abbrev pub page_entry : Vm → ℕ → ℕ
page_entry vm page = word_at vm.memory (vm.page_table_base + page * 4)

-- A cell of a frame that the page table maps for the user to write, or just behind it.
pub record Owns (vm : Vm) (slack a : ℕ) : Type 0 where
  pub page : ℕ
  pub mapped : page < vm.num_pages
  pub writable : allows (page_entry vm page) true false ≡ true
  pub from : page_entry vm page / 2 ^ 12 * 2 ^ 12 ≤ a
  pub below : a < page_entry vm page / 2 ^ 12 * 2 ^ 12 + 2 ^ 12 + slack

-- The cells that differ are in a set.
abbrev Changes : (ℕ → Type 0) → Vm → Vm → Type 0
Changes P vm vm' = (a : ℕ) → vm'.memory.at a ≢ vm.memory.at a → P a

-- The cells that a write of `n` bytes at `p` changes.
abbrev Within : (p n : ℕ) → Array → Array → Type 0
Within p n m m' = (a : ℕ) → m'.at a ≢ m.at a → (p ≤ a) × (a < p + n)

-- A write of a value of its type is within its bytes.
abbrev IsWrite : ℕ → (Array → ℕ → ℕ → Outcome Array) → Type 0
IsWrite n write = (m : Array) (p v : ℕ) → v < 2 ^ 32 → Post (Within p n m) (write m p v)

write_word-IsWrite : IsWrite 4 write_word
unfolding write_word
write_word-IsWrite m p v h = elim (Bool-cases (leb (p + 4) m.size)) [
  | inl e ↦
      rw (write_word_on-with_word little_endian m p v (ground arith) h)
        (ends λ a d. ground (arith, with_word-outside m.at p v a))
  | inr e ↦ rw (write_word_on-fault little_endian m p v (ground arith)) faults
]

write_half-IsWrite : IsWrite 2 (λ m a v. write_half m a (u16 v))
unfolding write_half
write_half-IsWrite m p v h = elim (Bool-cases (leb (p + 2) m.size)) [
  | inl e ↦
      rw (write_half_on-with_half little_endian m p (u16 v) (ground arith) (omega arith))
        (ends λ a d. ground (arith, with_half-outside m.at p (u16 v) a))
  | inr e ↦ rw (write_half_on-fault little_endian m p (u16 v) (ground arith)) faults
]

write_byte-IsWrite : IsWrite 1 (λ m a v. write_byte m a (u8 v))
unfolding write_byte
write_byte-IsWrite m p v h = elim (Bool-cases (ltb p m.size)) [
  | inl e ↦ rw (store-ok m p (u8 v) (ground arith)) (ends λ a d. ground arith)
  | inr e ↦ rw (store-fault m p (u8 v) (ground arith)) faults
]

module _ (i : Instruction) (vm : Vm) (f : Fits vm) (user : vm.kernel_mode ≡ false)
    (paging : vm.paging_enabled ≡ true)
    (room : vm.page_table_base + vm.num_pages * 4 ≤ vm.memory_size) where
  -- The bytes of an access that the walk allows.
  walk-Owns :
      (n p a : ℕ)
      → n ≤ 4
      → walk vm (effective i vm) true false ≡ some p
      → p ≤ a
      → a < p + n
      → Owns vm (beyond i vm) a
  unfolding walk
  walk-Owns n p a few e from below =
      let page = effective i vm / 2 ^ 12 in
      elim (Bool-cases (ltb page vm.num_pages && allows (page_entry vm page) true false)) [
        | inl t ↦
            let led : some (page_entry vm page / 2 ^ 12 * 2 ^ 12 + effective i vm % 2 ^ 12)
                ≡ some p =
              rw t at e in
            let there : page_entry vm page / 2 ^ 12 * 2 ^ 12 + effective i vm % 2 ^ 12 ≡ p = cc in
            record {
              page = page;
              mapped = ground arith;
              writable = ground arith;
              from = omega (arith, there, from);
              below = ground (arith, there, below);
            }
        | inr t ↦ let no : none ≡ some p = rw t at e in absurd (cc no)
      ]

  abbrev checked : ℕ → ℕ × Vm → Outcome (Option ℕ × Vm)
  checked n (phys_addr, vm') =
      if not (phys_addr == invalid_address) && leb (u32 (phys_addr + n)) vm'.memory_size
      then ok (some phys_addr, vm')
      else ok (none, vm')

  stored-Changes :
      (n p : ℕ) (write : Array → ℕ → ℕ → Outcome Array)
      → n ≤ 4
      → IsWrite n write
      → walk vm (effective i vm) true false ≡ some p
      → Post (Changes (Owns vm (beyond i vm)) vm) (store_with write i (some p, vm))
  unfolding store_with
  stored-Changes n p write few w e = Post-bind (get_reg-IsWord f i.rt) λ v word.
      Post-bind (w vm.memory p v word)
        λ m within. ends λ a d. let (from, below) = within a d in walk-Owns n p a few e from below

  answered-Changes :
      (n : ℕ) (write : Array → ℕ → ℕ → Outcome Array)
      → n ≤ 4
      → IsWrite n write
      → (o : Option ℕ) → walk vm (effective i vm) true false ≡ o
      → Post (Changes (Owns vm (beyond i vm)) vm) (checked n (answer vm o) >>= store_with write i)
  unfolding store_with answer
  answered-Changes n write few w none e =
      let same : (raise_interrupt vm 8).memory ≡ vm.memory =
        Touches-memory (raise_interrupt-Touches vm 8) in
      ends λ a d. absurd (d (ap (λ m. m.at a) same))
  answered-Changes n write few w (some p) e =
      elim (Bool-cases (not (p == invalid_address) && leb (u32 (p + n)) vm.memory_size)) [
        | inl t ↦ rw t (stored-Changes n p write few w e)
        | inr t ↦ rw t (ends λ a d. absurd (d refl))
      ]

  exec_store-Changes :
      (n : ℕ) (write : Array → ℕ → ℕ → Outcome Array)
      → n ≤ 4
      → IsWrite n write
      → Post (Changes (Owns vm (beyond i vm)) vm) (data_address true n i vm >>= store_with write i)
  unfolding data_address get_reg
  exec_store-Changes n write few w = elim (Bool-cases (ltb i.rs 32)) [
    | inl t ↦
        rw (t, translate_address-walk vm (effective i vm) true false f user paging room)
          (answered-Changes n write few w _ refl)
    | inr t ↦ rw t faults
  ]

  Touches-Changes : {vm' : Vm} → Touches vm vm' → Changes (Owns vm (beyond i vm)) vm vm'
  Touches-Changes t a d = absurd (d (ap (λ m. m.at a) (Touches-memory t)))

  exec_opcode-Changes :
      (op : Opcode) → Post (Changes (Owns vm (beyond i vm)) vm) (exec_opcode op i vm)
  unfolding exec_opcode exec_memory
  exec_opcode-Changes (memory Memory.sw) =
      exec_store-Changes 4 write_word (omega arith) write_word-IsWrite
  exec_opcode-Changes (memory Memory.sh) = exec_store-Changes 2 _ (omega arith) write_half-IsWrite
  exec_opcode-Changes (memory Memory.sb) = exec_store-Changes 1 _ (omega arith) write_byte-IsWrite
  exec_opcode-Changes op =
      Post-mono (exec_opcode-Touches i vm user op (λ _. false)) λ _ t. Touches-Changes t

  exec_selected-Changes :
      (op : Option Opcode) → Post (Changes (Owns vm (beyond i vm)) vm) (exec_selected op i vm)
  unfolding exec_selected
  exec_selected-Changes none = ends (Touches-Changes (halted-Touches i vm 1))
  exec_selected-Changes (some op) = exec_opcode-Changes op

  -- A well-formed machine in user mode with paging on, whose page table lies inside the memory:
  -- whatever the instruction, a cell of the memory that an execution free of undefined behaviour
  -- changes lies in the frame of a page whose entry is valid and lets the user write, if the
  -- effective address is a multiple of four, and else there or at most three cells behind it.
  pub execute-Owns :
      (vm' : Vm)
      → execute i vm ≡ ok vm'
      → (a : ℕ) → vm'.memory.at a ≢ vm.memory.at a
      → Owns vm (beyond i vm) a
  unfolding execute
  execute-Owns vm' e = Post-ok (exec_selected-Changes (opcode_of i.opcode)) e
