-- ===== src/Base/Outcome.antt =====
-- How a piece of C++ ends: with a value, or in the way that it stops the process.
use task_bench.Base.{◌≡◌, refl, Bool, true, false}

-- `undefined` is undefined behaviour: a division by zero, a shift out of range.
pub data Fault : Type 0 where
  assertion aborted exited undefined out_of_bounds : Fault

pub data Outcome {ℓ} (A : Type ℓ) : Type ℓ where
  ok : A → Outcome A
  fault : Fault → Outcome A

-- assert(b)
abbrev pub check_that : Bool → Outcome (Unit {0})
check_that true = ok tt
check_that false = fault assertion

-- `if (b) { fprintf(stderr, ...); abort(); }`
abbrev pub abort_if : Bool → Outcome (Unit {0})
abort_if true = fault aborted
abort_if false = ok tt

-- One statement behind another: the second runs where the first returns.
module _ {ℓ} {B : Type ℓ} where
  infixl 5 ◌>>=◌ ◌>>◌
  abbrev pub ◌>>=◌ {κ} : {A : Type κ} → Outcome A → (A → Outcome B) → Outcome B
  fault stop >>= next = fault stop
  ok value >>= next = next value

  abbrev pub ◌>>◌ : Outcome (Unit {0}) → Outcome B → Outcome B
  first >> second = first >>= λ _. second

  -- A sequence returns only if both of its parts do.
  pub >>=-eq-ok {κ} :
      {A : Type κ} (first : Outcome A) (next : A → Outcome B) {result : B}
      → (first >>= next) ≡ ok result
      → (value : A) × (first ≡ ok value) × (next value ≡ ok result)
  >>=-eq-ok (fault stop) next returns = cc
  >>=-eq-ok (ok value) next returns = (value, refl, returns)

pub ok-injective {ℓ} : {A : Type ℓ} {a b : A} → ok a ≡ ok b → a ≡ b
ok-injective e = cc
