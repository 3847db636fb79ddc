-- ===== src/Prelude/Faults.antt =====
-- What C code that touches memory can do: return, or fault.
use mathlib.Core.Bool.{Bool, true, false}

-- Undefined behaviour (an access outside an object or through NULL, an `int` that overflows), or an `__ASSERT` that
-- fails where assertions are compiled in.
pub data Fault : Type 0 where
  out_of_bounds assert_failed int_overflow null_pointer : Fault

pub data Result {ℓ} (A : Type ℓ) : Type ℓ where
  ok : A → Result A
  fault : Fault → Result A

infixl 5 ◌>>=◌ ◌>>◌
abbrev pub ◌>>=◌ {ℓ κ} : {A : Type ℓ} {B : Type κ} → Result A → (A → Result B) → Result B
ok a >>= f = f a
fault e >>= f = fault e

abbrev pub ◌>>◌ {ℓ} : {B : Type ℓ} → Result (Unit {0}) → Result B → Result B
m >> k = m >>= λ _. k

-- `if (!b) fault`.
abbrev pub check : Bool → Fault → Result (Unit {0})
check true e = ok tt
check false e = fault e
