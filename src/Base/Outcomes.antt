-- ===== src/Base/Outcomes.antt =====
-- A run of C code that returns, or that the program does not survive.
use mathlib.Core.Path.{◌≡◌, refl}
use mathlib.Core.Logic.{◌⊎◌, inl, inr}

-- `abort` is rpc_abort or a failed g_assert; `bad_access` is a NULL or out of bounds access, or a
-- union read at the wrong member or of a value never written; `overflow` is one of signed integers.
-- `no_fuel` is no fault of the code: a loop was given too few rounds, which the theorems exclude.
pub data Fault : Type 0 where
  abort bad_access overflow no_fuel : Fault

pub data Outcome {ℓ} (A : Type ℓ) : Type ℓ where
  fault : Fault → Outcome A
  ok : A → Outcome A

infixl 5 ◌>>=◌
-- What follows a run that did not return is not run.
abbrev pub ◌>>=◌ {κ ℓ} : {B : Type κ} {A : Type ℓ} → Outcome A → (A → Outcome B) → Outcome B
fault why >>= next_part = fault why
ok result >>= next_part = next_part result

-- The run ends well, in something that has the property.
abbrev pub Leaves {ℓ} : {A : Type ℓ} → Outcome A → (A → Type 0) → Type ℓ
Leaves {A} r P = (x : A) × (r ≡ ok x) × P x

pub Outcome-cases {ℓ} :
    {A : Type ℓ} (r : Outcome A) → ((why : Fault) × (r ≡ fault why)) ⊎ ((a : A) × (r ≡ ok a))
Outcome-cases (fault why) = inl (why, refl)
Outcome-cases (ok a) = inr (a, refl)
