-- ===== src/Prelude/Outcome.antt =====
-- How a call of C code comes out, where it may fail an assertion or leave its memory.
use mathlib.Core.Path.{◌≡◌, refl}
use mathlib.Core.Logic.{◌⊎◌, inl, inr}
use mathlib.Core.Bool.{Bool, true, false}

pub data Outcome {ℓ} (A : Type ℓ) : Type ℓ where
  ok : A → Outcome A
  aborted : Outcome A  -- a failed `assert`
  fault : Outcome A  -- an access outside the memory of the object
  unfinished : Outcome A  -- the fuel is used up

infixl 5 ◌>>=◌ ◌>>◌
abbrev pub ◌>>=◌ {ℓ κ} : {A : Type ℓ} {B : Type κ} → Outcome A → (A → Outcome B) → Outcome B
ok a >>= f = f a
aborted >>= f = aborted
fault >>= f = fault
unfinished >>= f = unfinished

abbrev pub ◌>>◌ {ℓ} : {B : Type ℓ} → Outcome (Unit {0}) → Outcome B → Outcome B
m >> k = m >>= λ _. k

abbrev pub assert : Bool → Outcome (Unit {0})
assert true = ok tt
assert false = aborted

-- A chain taken apart by how it came out.
module _ {ℓ κ} {A : Type ℓ} {B : Type κ} where
  -- Both parts came out well.
  pub bind-ok :
      (first : Outcome A) (rest : A → Outcome B) {y : B}
      → (first >>= rest) ≡ ok y
      → (x : A) × (first ≡ ok x) × (rest x ≡ ok y)
  bind-ok (ok x) rest e = (x, refl, e)
  bind-ok aborted rest e = cc
  bind-ok fault rest e = cc
  bind-ok unfinished rest e = cc

  -- The fuel ran out in the first part, or in the rest.
  pub bind-unfinished :
      (first : Outcome A) (rest : A → Outcome B)
      → (first >>= rest) ≡ unfinished
      → (first ≡ unfinished) ⊎ ((x : A) × (first ≡ ok x) × (rest x ≡ unfinished))
  bind-unfinished unfinished rest e = inl refl
  bind-unfinished (ok x) rest e = inr (x, refl, e)
  bind-unfinished aborted rest e = cc
  bind-unfinished fault rest e = cc
