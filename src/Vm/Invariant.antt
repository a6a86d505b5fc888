-- ===== src/Vm/Invariant.antt =====
-- Well-formed states of the virtual machine, and the rules by which runs keep to them.
pub mod Values
pub mod Memory
pub mod Mmu
pub mod Registers
pub mod Execute
pub mod Dispatch
pub mod Step
use crisp.Base.{
  ℕ, ◌+◌, ◌*◌, ◌/◌, ◌%◌, ◌^◌, ◌≤◌, ◌<◌, ◌≡◌, bit_or, arith, Bool, true, false, Outcome, ok, fault,
  ◌>>=◌, u8, ltb, if◌then◌else◌, refl, Bool-cases, inl, inr,
}
use mathlib.Core.Path.{subst}
use crisp.Array.{Array, update}
use crisp.Vm.Memory.Laws.{AreBytes}
use crisp.Vm.State.{Vm, get_reg, set_reg}
use crisp.Vm.Interrupts.{raise_interrupt}

abbrev pub IsWord : ℕ → Type 0
IsWord v = v < 2 ^ 32

-- Every field holds a value of its C type, and the stated memory size does not exceed the buffer.
pub record Fits (vm : Vm) : Type 0 where
  pub regs : (i : ℕ) → i < 32 → IsWord (vm.regs i)
  pub pc : IsWord vm.pc
  pub bytes : AreBytes vm.memory
  pub size : IsWord vm.memory_size
  pub allocated : vm.memory_size ≤ vm.memory.size
  pub table : IsWord vm.page_table_base
  pub pages : IsWord vm.num_pages
  pub pending : (i : ℕ) → i < 32 → vm.interrupts.pending i < 2 ^ 8
  pub saved_pc : IsWord vm.interrupts.saved_pc
  pub saved_regs_addr : IsWord vm.interrupts.saved_regs_addr

-- Register 0 reads as zero, too.
pub record IsValid (vm : Vm) : Type 0 where
  pub fits : Fits vm
  pub zero_reg : vm.regs 0 ≡ 0

-- A run that ends without undefined behaviour ends in `P`.
pub data Post {ℓ} {A : Type ℓ} (P : A → Type 0) : Outcome A → Type ℓ where
  ends : {a : A} → P a → Post P (ok a)
  faults : Post P fault

pub Post-bind {ℓ κ} :
    {A : Type ℓ} {B : Type κ} {P : A → Type 0} {Q : B → Type 0} {m : Outcome A} {f : A → Outcome B}
    → Post P m
    → ((a : A) → P a → Post Q (f a))
    → Post Q (m >>= f)
Post-bind (ends p) next = next _ p
Post-bind faults next = faults

pub Post-mono {ℓ} :
    {A : Type ℓ} {P Q : A → Type 0} {m : Outcome A} → Post P m → ((a : A) → P a → Q a) → Post Q m
Post-mono (ends p) weaken = ends (weaken _ p)
Post-mono faults weaken = faults

pub Post-if {ℓ} :
    {A : Type ℓ} {P : A → Type 0} (b : Bool) {m n : Outcome A}
    → (b ≡ true → Post P m)
    → (b ≡ false → Post P n)
    → Post P (if b then m else n)
Post-if true p q = p refl
Post-if false p q = q refl

pub Post-ok {ℓ} : {A : Type ℓ} {P : A → Type 0} {m : Outcome A} {a : A} → Post P m → m ≡ ok a → P a
Post-ok {P} (ends {a = b} p) e = subst P (cc) p
Post-ok faults e = cc

pub raise_interrupt-regs : (vm : Vm) (n : ℕ) → (raise_interrupt vm n).regs ≡ vm.regs
unfolding raise_interrupt
raise_interrupt-regs vm n = elim (Bool-cases (ltb (n / 8) 32)) [ inl e ↦ rw e | inr e ↦ rw e ]

module _ {vm : Vm} (f : Fits vm) where
  pub get_reg-IsWord : (i : ℕ) → Post IsWord (get_reg vm i)
  unfolding get_reg
  get_reg-IsWord i = Post-if (ltb i 32) (λ e. ends (f.regs i (ground arith))) (λ _. faults)

  pub with_regs-Fits :
      (regs : ℕ → ℕ) → ((i : ℕ) → i < 32 → IsWord (regs i)) → Fits (record vm { regs = regs })
  with_regs-Fits regs h = grind arith

  pub update-IsWord : (k v : ℕ) → IsWord v → (i : ℕ) → i < 32 → IsWord (update vm.regs k v i)
  update-IsWord k v h i below = ground (arith, f.regs i)

  pub set_reg-Fits : (i v : ℕ) → IsWord v → Post Fits (set_reg vm i v)
  unfolding set_reg
  set_reg-Fits i v h =
      Post-if (ltb i 32) (λ e. ends (with_regs-Fits _ (update-IsWord i v h))) (λ _. faults)

  pub with_pc-Fits : (v : ℕ) → IsWord v → Fits (record vm { pc = v })
  with_pc-Fits v h = grind arith

  pub halted-Fits : Fits (record vm { running = false })
  halted-Fits = grind arith

  pub with_pending-Fits :
      (pending : ℕ → ℕ)
      → ((i : ℕ) → i < 32 → pending i < 2 ^ 8)
      → Fits (record vm { interrupts = record (vm.interrupts) { pending = pending } })
  with_pending-Fits pending h = grind arith

  pub raise_interrupt-Fits : (n : ℕ) → Fits (raise_interrupt vm n)
  unfolding raise_interrupt
  raise_interrupt-Fits n = elim (Bool-cases (ltb (n / 8) 32)) [
    | inl e ↦ rw e (with_pending-Fits _ λ i h. ground (arith, f.pending i h))
    | inr e ↦ rw e f
  ]
