-- ===== src/Prelude/Result.antt =====
-- A call that may raise: its result, or the exception.
use mathlib.Core.Path.{◌≡◌, refl}
use mathlib.Core.Logic.{◌⊎◌, inl, inr}
use mathlib.Core.Bool.{Bool, true, false}

pub data Result {ℓ} (E A : Type ℓ) : Type ℓ where
  ok : A → Result E A
  err : E → Result E A

module _ {ℓ} {E A : Type ℓ} where
  abbrev pub is_err : Result E A → Bool
  is_err (err failure) = true
  is_err (ok value) = false

  pub Result-cases :
      (call : Result E A)
      → ((value : A) × (call ≡ ok value)) ⊎ ((failure : E) × (call ≡ err failure))
  Result-cases (err failure) = inr (failure, refl)
  Result-cases (ok value) = inl (value, refl)

  pub ok-injective : {x y : A} → ◌≡◌ {A = Result E A} (ok x) (ok y) → x ≡ y
  ok-injective same = cc

-- Goes on after a call that returns.
infixl 5 ◌>>=◌
abbrev pub ◌>>=◌ {ℓ} : {E A B : Type ℓ} → Result E A → (A → Result E B) → Result E B
err failure >>= next = err failure
ok value >>= next = next value

pub >>=-eq-ok {ℓ} :
    {E A B : Type ℓ} (call : Result E A) (next : A → Result E B) {y : B}
    → (call >>= next) ≡ ok y
    → (value : A) × (call ≡ ok value) × (next value ≡ ok y)
>>=-eq-ok (err failure) next returns = cc
>>=-eq-ok (ok value) next returns = (value, refl, returns)
