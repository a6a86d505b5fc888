-- ===== src/Asm/Registers/Texts.antt =====
-- `c32_parse_register` of src/asm/c32_encode.c on the ways to write a register.
use Prim.Native.String.{String}
use crisp.Base.{
  length, ℕ, zero, suc, ◌+◌, ◌-◌, ◌*◌, ◌≤◌, ◌<◌, ◌≡◌, ◌≢◌, ◌⊎◌, ◌==◌, ltb, not, ◌||◌, ◌&&◌, refl,
  sym, ap, ◌∙◌, arith, Bool, true, false, List, [], ◌∷◌, ok, Outcome, Bool-cases, inl, inr, Option,
  some, none, u32,
}
use crisp.Base.Int.{ℤ, pos, negsuc, sub_ℕ}
use crisp.Array.{Array, load, load-ok}
use crisp.CString.Literal.{literal}
use crisp.CString.{strlen, strlen_loop, strcmp, strcmp_loop}
use crisp.CString.Search.{strlen-IsString, strcmp-difference}
use crisp.CString.Same.{SameString, strcmp-same_left}
use crisp.Asm.Symbols.{is_zero}
use crisp.Asm.Immediate.{is_digit}
use crisp.Asm.Immediate.Decimal.{decimal, IsDecimal}
use crisp.Asm.Registers.{
  register_names, number_loop, in_range, parse_number, parse_name, parse_register,
}

-- Only the string matters.
module _ (a b : Array) (n : ℕ) (same : SameString a b n) where
  load-same : (i : ℕ) → i < n → load a i ≡ load b i
  load-same i h =
      rw
        (
          load-ok a i (omega (arith, same.left.room)),
          load-ok b i (omega (arith, same.right.room)),
          same.characters i h,
        )
        refl

  number_loop-same :
      (left i reg : ℕ) → i + left ≤ n → number_loop a left i reg ≡ number_loop b left i reg
  unfolding number_loop
  number_loop-same zero i reg h = refl
  number_loop-same (suc left) i reg h =
      let later : (v : ℕ) → number_loop a left (i + 1) v ≡ number_loop b left (i + 1) v =
        λ v. number_loop-same left (i + 1) v (omega arith) in
      rw (load-same i (omega arith), load-ok b i (omega (arith, same.right.room)), later _) refl

  parse_name-same :
      0 < n → (names : List Array) (reg : ℕ) → parse_name a n names reg ≡ parse_name b n names reg
  unfolding parse_name parse_number
  parse_name-same positive [] reg =
      rw (load-same 0 positive, number_loop-same (n - 1) 1 0 (omega arith)) refl
  parse_name-same positive (name ∷ names) reg =
      rw (strcmp-same_left a b n same name, parse_name-same positive names (reg + 1)) refl

  pub parse_register-same : parse_register a ≡ parse_register b
  unfolding parse_register
  parse_register-same =
      rw (strlen-IsString a n same.left, strlen-IsString b n same.right)
        (elim (Bool-cases (n == 0)) [
          | inl e ↦ rw e refl
          | inr e ↦ rw e (parse_name-same (ground arith) register_names 0)
        ])

-- The names are not numbers: they start with neither letter, or go on with no digit.
abbrev is_unlike : Array → Bool
is_unlike name =
    ltb 1 name.size
    && not (name.at 0 == b'R')
    && (not (name.at 0 == b'r') || not (is_digit (name.at 1)))

all_unlike : List Array → Bool
all_unlike [] = true
all_unlike (name ∷ names) = is_unlike name && all_unlike names

register_names-unlike : all_unlike register_names ≡ true
unfolding all_unlike register_names
register_names-unlike = refl

is_zero-sub_ℕ : (x y : ℕ) → x ≢ y → is_zero (sub_ℕ x y) ≡ false
is_zero-sub_ℕ x y h = ground arith

module _ (text : Array) (n : ℕ) (d : IsDecimal text n 1)
    (letter : (text.at 0 ≡ b'R') ⊎ (text.at 0 ≡ b'r')) where
  strcmp-unlike :
      (name : Array)
      → is_unlike name ≡ true
      → (z : ℤ) × (strcmp text name ≡ ok z) × (is_zero z ≡ false)
  strcmp-unlike name unlike = elim (Bool-cases (text.at 0 == name.at 0)) [
    | inr e ↦ (
      sub_ℕ (text.at 0) (name.at 0),
      strcmp-difference text name 0 (omega (arith, d.text.room)) (ground arith)
          (λ j below. absurd (omega arith)) (λ j below. absurd (omega arith)) (inl (ground arith)),
      is_zero-sub_ℕ (text.at 0) (name.at 0) (ground arith),
    )
    | inl e ↦
        let digit : is_digit (text.at 1) ≡ true = d.digits 1 (omega arith) d.some in
        let other : text.at 1 ≢ name.at 1 = ground arith in
        (
          sub_ℕ (text.at 1) (name.at 1),
          strcmp-difference text name 1 (omega (arith, d.some, d.text.room)) (ground arith)
              (λ j below. let here : j ≡ 0 = omega arith in rw here (ground arith))
              (λ j below. let here : j ≡ 0 = omega arith in rw here (ground arith)) (inl other),
          is_zero-sub_ℕ (text.at 1) (name.at 1) other,
        )
  ]

  parse_name-number :
      (names : List Array) (reg : ℕ)
      → all_unlike names ≡ true
      → parse_name text n names reg ≡ parse_number text n
  unfolding parse_name all_unlike
  parse_name-number [] reg u = refl
  parse_name-number (name ∷ names) reg u =
      let (z, e, nz) = strcmp-unlike name (ground arith) in
      rw (e, nz) (parse_name-number names (reg + 1) (ground arith))

  number_loop-decimal :
      (left k i : ℕ)
      → i ≡ 1 + k
      → i + left ≡ n
      → number_loop text left i (u32 (decimal text.at 1 k))
        ≡ ok (some (u32 (decimal text.at 1 (n - 1))))
  unfolding number_loop decimal
  number_loop-decimal zero k i at end =
      let all : k ≡ n - 1 = omega arith in ap (λ k. ok (some (u32 (decimal text.at 1 k)))) all
  number_loop-decimal (suc left) k i at end =
      let digit : is_digit (text.at i) ≡ true = d.digits i (omega arith) (omega arith) in
      let next : u32 (u32 (decimal text.at 1 k) * 10 + (text.at i - 48))
          ≡ u32 (decimal text.at 1 (suc k)) =
        ground (arith, at) in
      rw (load-ok text i (omega (arith, d.text.room)), digit, next)
        (number_loop-decimal left (suc k) (i + 1) (omega arith) (omega arith))

  parse_register-number :
      decimal text.at 1 (n - 1) < 32 → parse_register text ≡ ok (pos (decimal text.at 1 (n - 1)))
  unfolding parse_register parse_number in_range decimal
  parse_register-number low =
      let some : (n == 0) ≡ false = ground (arith, d.some) in
      let long : ((text.at 0 == 82 || text.at 0 == 114) && ltb 1 n) ≡ true =
        ground (arith, d.some) in
      rw
        (
          strlen-IsString text n d.text,
          some,
          parse_name-number register_names 0 register_names-unlike,
          load-ok text 0 (omega (arith, d.some, d.text.room)),
          long,
          number_loop-decimal (n - 1) 0 1 refl (omega (arith, d.some)),
        )
        (ground arith)

-- The names.
abbrev pub nth {ℓ} : {A : Type ℓ} → List A → ℕ → Option A
nth [] i = none
nth (x ∷ xs) zero = some x
nth (x ∷ xs) (suc i) = nth xs i

-- The names of the registers 0 to 31 in docs/crisp32-spec.md.
unfoldable pub names_of_registers : List String
names_of_registers =
    "zero" ∷ "at" ∷ "v0" ∷ "v1" ∷ "a0" ∷ "a1" ∷ "a2" ∷ "a3" ∷ "t0" ∷ "t1" ∷ "t2" ∷ "t3" ∷ "t4"
    ∷ "t5" ∷ "t6" ∷ "t7" ∷ "s0" ∷ "s1" ∷ "s2" ∷ "s3" ∷ "s4" ∷ "s5" ∷ "s6" ∷ "s7" ∷ "t8" ∷ "t9"
    ∷ "k0" ∷ "k1" ∷ "gp" ∷ "sp" ∷ "fp" ∷ "ra" ∷ []

-- A register as it is written: by its name, or by the letter and its number.
pub data Register : Array → ℕ → Type 0 where
  named :
      {text : Array} {name : String} {reg m : ℕ}
      → nth names_of_registers reg ≡ some name
      → SameString text (literal name) m
      → Register text reg
  numbered :
      {text : Array} {n : ℕ}
      → IsDecimal text n 1
      → (text.at 0 ≡ b'R') ⊎ (text.at 0 ≡ b'r')
      → decimal text.at 1 (n - 1) < 32
      → Register text (decimal text.at 1 (n - 1))

is_parsed : ℕ → Outcome ℤ → Bool
is_parsed n (Outcome.ok (pos m)) = m == n
is_parsed n (Outcome.ok (negsuc m)) = false
is_parsed n Outcome.fault = false

is_parsed-pos : (n : ℕ) (m : Outcome ℤ) → is_parsed n m ≡ true → m ≡ ok (pos n)
unfolding is_parsed
is_parsed-pos n (Outcome.ok (pos m)) e = ap (λ k. ok (pos k)) (ground arith)
is_parsed-pos n (Outcome.ok (negsuc m)) e = absurd (cc e)
is_parsed-pos n Outcome.fault e = absurd (cc e)

all_parsed : List String → ℕ → Bool
all_parsed [] reg = true
all_parsed (name ∷ names) reg =
    is_parsed reg (parse_register (literal name)) && all_parsed names (reg + 1)

names_of_registers-parsed : all_parsed names_of_registers 0 ≡ true
unfolding all_parsed is_parsed names_of_registers literal register_names parse_register strlen
    strlen_loop load parse_name strcmp strcmp_loop
names_of_registers-parsed = refl

some-injective : {x y : String} → some x ≡ some y → x ≡ y
some-injective e = cc

all_parsed-nth :
    (names : List String) (i reg : ℕ) (name : String)
    → all_parsed names reg ≡ true
    → nth names i ≡ some name
    → parse_register (literal name) ≡ ok (pos (reg + i))
unfolding all_parsed
all_parsed-nth [] i reg name all e = absurd (cc e)
all_parsed-nth (x ∷ names) zero reg name all e =
    let parsed : is_parsed reg (parse_register (literal x)) ≡ true = ground arith in
    let run : parse_register (literal x) ≡ ok (pos reg) = is_parsed-pos reg _ parsed in
    let same : x ≡ name = some-injective e in
    let here : reg + 0 ≡ reg = omega arith in rw (here, sym same) run
all_parsed-nth (x ∷ names) (suc i) reg name all e =
    let there : reg + suc i ≡ reg + 1 + i = omega arith in
    rw there (all_parsed-nth names i (reg + 1) name (ground arith) e)

-- Each way to write a register, in a buffer that holds the same string, is parsed to the register.
pub parse_register-Register :
    {text : Array} {reg n : ℕ} (token : Array)
    → Register text reg
    → SameString token text n
    → parse_register token ≡ ok (pos reg)
parse_register-Register token (named {name = name} {reg = reg} at same) copy =
    parse_register-same token _ _ copy
    ∙ parse_register-same _ (literal name) _ same
    ∙ all_parsed-nth names_of_registers reg 0 name names_of_registers-parsed at
    ∙ ap (λ k. ok (pos k)) (omega arith)
parse_register-Register token (numbered d letter low) copy =
    parse_register-same _ _ _ copy ∙ parse_register-number _ _ d letter low

nth-lt : (names : List String) (i : ℕ) (name : String) → nth names i ≡ some name → i < length names
nth-lt [] i name e = absurd (cc e)
nth-lt (x ∷ names) zero name e = omega arith
nth-lt (x ∷ names) (suc i) name e = omega (arith, nth-lt names i name e)

length-names_of_registers : length names_of_registers ≡ 32
unfolding names_of_registers
length-names_of_registers = refl

pub Register-lt : {text : Array} {reg : ℕ} → Register text reg → reg < 32
Register-lt (named at same) = rw length-names_of_registers at (nth-lt names_of_registers _ _ at)
Register-lt (numbered d letter low) = low
