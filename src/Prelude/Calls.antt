-- ===== src/Prelude/Calls.antt =====
-- The result of a library call with its error already printed, and what an `unwrap` makes of a call.
use mathlib.Core.Path.{◌≡◌, refl}
use mathlib.Core.Logic.{◌⊎◌, inl, inr}
use Prim.Native.String.{String}

pub data Outcome {ℓ} (A : Type ℓ) : Type ℓ where
  done : A → Outcome A
  failed : String → Outcome A

pub Outcome-cases {ℓ} :
    {A : Type ℓ} (o : Outcome A) → ((a : A) × (o ≡ done a)) ⊎ ((msg : String) × (o ≡ failed msg))
Outcome-cases (done a) = inl (a, refl)
Outcome-cases (failed msg) = inr (msg, refl)

-- A computation that returns, or panics.
pub data Ran {ℓ} (A : Type ℓ) : Type ℓ where
  returned : A → Ran A
  panicked : Ran A
