-- ===== src/Base/Runs.antt =====
-- Rules for runs that end without a fault, and for two runs side by side.
use crisp.Base.{Bool, true, false, if◌then◌else◌, ◌≡◌, refl, Outcome, ok, ◌>>=◌, Returns, returns}

pub Returns-bind {ℓ κ} :
    {A : Type ℓ} {B : Type κ} {P : A → Type 0} {Q : B → Type 0} {m : Outcome A} {f : A → Outcome B}
    → Returns P m
    → ((a : A) → P a → Returns Q (f a))
    → Returns Q (m >>= f)
Returns-bind (returns p) next = next _ p

pub Returns-mono {ℓ} :
    {A : Type ℓ} {P Q : A → Type 0} {m : Outcome A}
    → Returns P m
    → ((a : A) → P a → Q a)
    → Returns Q m
Returns-mono (returns p) weaken = returns (weaken _ p)

pub Returns-if {ℓ} :
    {A : Type ℓ} {P : A → Type 0} (b : Bool) {m n : Outcome A}
    → (b ≡ true → Returns P m)
    → (b ≡ false → Returns P n)
    → Returns P (if b then m else n)
Returns-if true p q = p refl
Returns-if false p q = q refl

pub Returns-ok {ℓ} :
    {A : Type ℓ} {P : A → Type 0} {m : Outcome A} → Returns P m → (a : A) × (m ≡ ok a) × P a
Returns-ok (returns {a = a} p) = (a, refl, p)

-- Both runs end without a fault, in related values.
pub data Agrees {ℓ κ} {A : Type ℓ} {B : Type κ} (R : A → B → Type 0)
    : Outcome A → Outcome B → Type (ℓ ⊔ κ) where
  agrees : {a : A} {b : B} → R a b → Agrees R (ok a) (ok b)

module _ {ℓ κ} {A : Type ℓ} {B : Type κ} {R : A → B → Type 0} where
  pub Agrees-if :
      (b : Bool) {m n : Outcome A} {k l : Outcome B}
      → (b ≡ true → Agrees R m k)
      → (b ≡ false → Agrees R n l)
      → Agrees R (if b then m else n) (if b then k else l)
  Agrees-if true p q = p refl
  Agrees-if false p q = q refl

  -- Both runs start with the same part.
  pub Agrees-same {ι} :
      {C : Type ι} {P : C → Type 0} {m : Outcome C} {f : C → Outcome A} {g : C → Outcome B}
      → Returns P m
      → ((c : C) → P c → Agrees R (f c) (g c))
      → Agrees R (m >>= f) (m >>= g)
  Agrees-same (returns p) next = next _ p

  -- The first run has a part of its own.
  pub Agrees-left {ι} :
      {C : Type ι} {P : C → Type 0} {m : Outcome C} {f : C → Outcome A} {n : Outcome B}
      → Returns P m
      → ((c : C) → P c → Agrees R (f c) n)
      → Agrees R (m >>= f) n
  Agrees-left (returns p) next = next _ p

  pub Agrees-mono :
      {S : A → B → Type 0} {m : Outcome A} {n : Outcome B}
      → Agrees R m n
      → ((a : A) (b : B) → R a b → S a b)
      → Agrees S m n
  Agrees-mono (agrees r) weaken = agrees (weaken _ _ r)

  pub Agrees-bind {ι υ} :
      {C : Type ι} {D : Type υ} {S : C → D → Type 0} {m : Outcome C} {k : Outcome D}
      {f : C → Outcome A} {g : D → Outcome B}
      → Agrees S m k
      → ((c : C) (d : D) → S c d → Agrees R (f c) (g d))
      → Agrees R (m >>= f) (k >>= g)
  Agrees-bind (agrees s) next = next _ _ s

  -- The second run goes on with its value.
  pub Agrees-right {ι} :
      {D : Type ι} {S : A → D → Type 0} {m : Outcome A} {k : Outcome D} (f : D → B)
      → Agrees S m k
      → ((a : A) (d : D) → S a d → R a (f d))
      → Agrees R m (k >>= λ d. ok (f d))
  Agrees-right f (agrees s) next = agrees (next _ _ s)

  pub Returns-Agrees : {m : Outcome A} {b : B} → Returns (λ a. R a b) m → Agrees R m (ok b)
  Returns-Agrees (returns r) = agrees r

  pub Agrees-Returns : {m : Outcome A} {b : B} → Agrees R m (ok b) → Returns (λ a. R a b) m
  Agrees-Returns (agrees r) = returns r

  pub Agrees-ok :
      {m : Outcome A} {n : Outcome B}
      → Agrees R m n
      → (a : A) × (b : B) × (m ≡ ok a) × (n ≡ ok b) × R a b
  Agrees-ok (agrees {a = a} {b = b} r) = (a, b, refl, refl, r)
