-- ===== src/Prelude/Results.antt =====
-- `Result<T, Box<dyn Error>>`, with the errors that the program tells apart.

use mathlib.Core.Path.{◌≡◌, refl}
use mathlib.Core.Logic.{◌⊎◌, inl, inr}

-- `out_of_fuel` is no error of the program: it marks a loop of the model that was given too few
-- rounds.
pub data Error : Type 0 where
  io_error utf8_error json_error timed_out tls_error no_private_key unauthenticated : Error
  out_of_fuel : Error

pub data Result {ℓ} (T : Type ℓ) : Type ℓ where
  ok : T → Result T
  err : Error → Result T

pub Result-cases {ℓ} :
    {A : Type ℓ} (r : Result A) → ((a : A) × (r ≡ ok a)) ⊎ ((e : Error) × (r ≡ err e))
Result-cases (ok a) = inl (a, refl)
Result-cases (err e) = inr (e, refl)
