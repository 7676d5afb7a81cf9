-- ===== src/Prelude/Result.antt =====
-- A value or an error, for Go's pairs `(value, error)`.
use mathlib.Core.Path.{◌≡◌, refl}
use mathlib.Core.Logic.{◌⊎◌, inl, inr}

-- The error first, as in a sum of a failure and a success.
pub data Result (Failure Success : Type 0) : Type 0 where
  err : Failure → Result Failure Success
  ok : Success → Result Failure Success

-- The early return of an error.
infixl 5 ◌>>=◌
abbrev pub ◌>>=◌ : {E A B : Type 0} (step : Result E A) (then_do : A → Result E B) → Result E B
err failure >>= then_do = err failure
ok value >>= then_do = then_do value

-- A success has a success at each step.
pub >>=-eq-ok :
    {E A B : Type 0} (step : Result E A) (then_do : A → Result E B) {result : B}
    → (step >>= then_do) ≡ ok result
    → (value : A) × (step ≡ ok value) × (then_do value ≡ ok result)
>>=-eq-ok (err failure) then_do h = cc
>>=-eq-ok (ok value) then_do h = (value, refl, h)

pub err_not_ok : {E A : Type 0} {e : E} {a : A} → err e ≡ ok a → ⊥
err_not_ok h = cc

pub ok_injective : {E A : Type 0} {a b : A} → ◌≡◌ {A = Result E A} (ok a) (ok b) → a ≡ b
ok_injective h = cc

pub Result-cases :
    {E A : Type 0} (result : Result E A)
    → ((value : A) × (result ≡ ok value)) ⊎ ((failure : E) × (result ≡ err failure))
Result-cases (err failure) = inr (failure, refl)
Result-cases (ok value) = inl (value, refl)
