-- ===== src/Prelude/Action.antt =====
-- An `async fn` that changes a state of type `S` and may fail: what was changed before an error
-- stays changed. `do` blocks with `?` at each step.
use mathlib.Core.Path.{◌≡◌, refl}
use cpcluster.Prelude.Results.{Result, ok, err}

abbrev pub Action {ℓ κ} : Type ℓ → Type κ → Type (ℓ ⊔ κ)
Action S A = S → Result A × S

-- What follows a step: the rest of the block, or its error.
abbrev pub proceed {ℓ κ μ} :
    {S : Type ℓ} {A : Type κ} {B : Type μ} → (A → Action S B) → Result A → S → Result B × S
proceed f (ok a) s = f a s
proceed f (err e) s = (err e, s)

infixl 5 ◌>>=◌ ◌>>◌
abbrev pub ◌>>=◌ {ℓ κ μ} :
    {S : Type ℓ} {A : Type κ} {B : Type μ} → Action S A → (A → Action S B) → Action S B
◌>>=◌ m f s = proceed f (m s).0 (m s).1

abbrev pub ◌>>◌ {ℓ μ} : {S : Type ℓ} {B : Type μ} → Action S (Unit {0}) → Action S B → Action S B
m >> k = m >>= λ _. k

abbrev pub pure {ℓ κ} : {S : Type ℓ} {A : Type κ} → A → Action S A
pure a s = (ok a, s)

-- What holds of the state after a step holds after the rest of the block, if the rest keeps it.
pub proceed_inv {ℓ κ μ ν} :
    {S : Type ℓ} {A : Type κ} {B : Type μ} (P : S → Type ν) (f : A → Action S B) (r : Result A)
    (s : S)
    → P s
    → ((a : A) → r ≡ ok a → P (f a s).1)
    → P (proceed f r s).1
proceed_inv P f (ok a) s h k = k a refl
proceed_inv P f (err e) s h k = h
