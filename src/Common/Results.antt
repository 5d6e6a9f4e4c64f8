-- ===== src/Common/Results.antt =====
-- What a piece of C code does: it goes on with a value, or it faults (a read or write out of bounds,
-- a call through a null pointer, a failed assertion).
use mathlib.Core.Bool.{Bool, true, false}
use mathlib.Core.Path.{◌≡◌, ap}

pub data Outcome {ℓ} (A : Type ℓ) : Type ℓ where
  ok : A → Outcome A
  fault : Outcome A

infixl 5 ◌>>=◌ ◌>>◌
abbrev pub ◌>>=◌ {ℓ κ} : {A : Type ℓ} {B : Type κ} → Outcome A → (A → Outcome B) → Outcome B
ok a >>= f = f a
fault >>= f = fault

abbrev pub ◌>>◌ {ℓ κ} : {A : Type ℓ} {B : Type κ} → Outcome A → Outcome B → Outcome B
m >> k = m >>= λ _. k

-- `assert`
abbrev pub assert : Bool → Outcome (Unit {0})
assert true = ok tt
assert false = fault

pub ok-injective {ℓ} : {A : Type ℓ} (a b : A) → ok a ≡ ok b → a ≡ b
ok-injective {A = A} a b e = ap (value a) e
  where
    value : A → Outcome A → A
    value c (ok x) = x
    value c fault = c
