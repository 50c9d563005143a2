-- ===== src/Prelude/Outcome.antt =====
-- What a Go function with an `error` result returns, and the panics of the runtime.
use Prim.Native.String.{String}
use mathlib.Core.Path.{◌≡◌, refl}
use mathlib.Core.Logic.{◌⊎◌, inl, inr}

-- An error. The first two are the reasons of the API server for which the code asks
-- (`apierrors.IsNotFound`, `apierrors.IsAlreadyExists`).
pub data Error : Type 0 where
  not_found : Error
  already_exists : Error
  msg : String → Error  -- errors.New, fmt.Errorf with no %w, and errors of other packages
  wrap : String → Error → Error  -- fmt.Errorf("…: %w", err)
  quote : String → Error → Error  -- fmt.Errorf("…: %s", text), with the text of an error
  join : Error → Error → Error  -- errors.Join

-- `fault` is a panic: a nil pointer or a nil map was used.
pub data Result {ℓ} (A : Type ℓ) : Type ℓ where
  ok : A → Result A
  err : Error → Result A
  fault : Result A

infixl 5 ◌>>=◌
abbrev pub ◌>>=◌ {ℓ κ} : {A : Type ℓ} {B : Type κ} → Result A → (A → Result B) → Result B
fault >>= next = fault
err e >>= next = err e
ok x >>= next = next x

-- The three ways in which a call ends, with the equation kept.
pub Result-cases {ℓ} :
    {A : Type ℓ} (r : Result A)
    → ((a : A) × (r ≡ ok a)) ⊎ (((e : Error) × (r ≡ err e)) ⊎ (r ≡ fault))
Result-cases (ok a) = inl (a, refl)
Result-cases (err e) = inr (inl (e, refl))
Result-cases fault = inr (inr refl)

pub >>=-eq-ok {ℓ κ} :
    {B : Type κ} {A : Type ℓ} {y : B} (call : Result A) (next : A → Result B)
    → (call >>= next) ≡ ok y
    → (x : A) × (call ≡ ok x) × (next x ≡ ok y)
>>=-eq-ok fault next h = cc
>>=-eq-ok (err e) next h = cc
>>=-eq-ok (ok x) next h = (x, refl, h)

pub ok_inj {ℓ} : {A : Type ℓ} {a b : A} → ok a ≡ ok b → a ≡ b
ok_inj h = cc
