-- ===== src/Base/Faults.antt =====
-- Runs of C code: a value, or undefined behaviour such as an access outside an object.

pub data Outcome {ℓ} (A : Type ℓ) : Type ℓ where
  ok : A → Outcome A
  fault : Outcome A

infixl 5 ◌>>=◌
abbrev pub ◌>>=◌ {ℓ κ} : {A : Type ℓ} {B : Type κ} → Outcome A → (A → Outcome B) → Outcome B
ok a >>= f = f a
fault >>= f = fault

-- A run that ends without undefined behaviour, in a value with the property.
pub data Returns {ℓ} {A : Type ℓ} (P : A → Type 0) : Outcome A → Type ℓ where
  returns : {a : A} → P a → Returns P (ok a)
