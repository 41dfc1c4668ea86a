-- ===== src/Prelude/Results.antt =====
-- How a routine of the firmware ends: it returns, it panics (`REQUIRE`, `Logger::Panic`), or it
-- leaves the defined behaviour of C++ (a null or dangling pointer, an index out of range).
use mathlib.Core.Bool.{Bool, true, false}
use mathlib.Core.Path.{◌≡◌, refl}
use mathlib.Core.Option.{Option, none, some}

pub data Outcome {ℓ} (A : Type ℓ) : Type ℓ where
  ok : A → Outcome A
  panic : Outcome A
  fault : Outcome A

infixl 5 ◌>>=◌ ◌>>◌
abbrev pub ◌>>=◌ {ℓ κ} : {A : Type ℓ} {B : Type κ} → Outcome A → (A → Outcome B) → Outcome B
ok a >>= f = f a
panic >>= f = panic
fault >>= f = fault

abbrev pub ◌>>◌ {ℓ} : {B : Type ℓ} → Outcome (Unit {0}) → Outcome B → Outcome B
m >> k = m >>= λ _. k

-- `REQUIRE(cond, ...)`
abbrev pub require : Bool → Outcome (Unit {0})
require true = ok tt
require false = panic

-- A pointer that has to be valid.
abbrev pub deref {ℓ} : {A : Type ℓ} → Option A → Outcome A
deref none = fault
deref (some a) = ok a

-- A routine that returns has returned from each of its steps.
module _ {ℓ κ} {A : Type ℓ} {B : Type κ} where
  pub bind-ok :
      (m : Outcome A) (f : A → Outcome B) (b : B)
      → m >>= f ≡ ok b
      → (a : A) × (m ≡ ok a) × (f a ≡ ok b)
  bind-ok (ok a) f b h = (a, refl, h)
  bind-ok panic f b h = absurd (cc h)
  bind-ok fault f b h = absurd (cc h)

pub require-ok {ℓ} :
    {B : Type ℓ} (c : Bool) (k : Outcome B) (b : B)
    → require c >> k ≡ ok b
    → (c ≡ true) × (k ≡ ok b)
require-ok true k b h = (refl, h)
require-ok false k b h = absurd (cc h)
