-- ===== src/Prelude/Families.antt =====
-- Families by a number, with another value at one place.
use Prim.Native.Nat.{ℕ}
use mathlib.Core.Path.{◌≡◌, subst}
use mathlib.Core.Logic.{◌≢◌, inl, inr}
use native.Mathlib.Omega.{arith}
use x_pdb.Prelude.Tests.{eqb, if◌then◌else◌, Bool-cases}

abbrev pub put {ℓ} : {A : Type ℓ} → (ℕ → A) → ℕ → A → ℕ → A
put f i a j = if eqb i j then a else f j

-- What holds of the new value at `i`, and of the others as they are.
pub put_elim {ℓ κ} :
    {A : Type ℓ} (P : ℕ → A → Type κ) (f : ℕ → A) (i : ℕ) (a : A)
    → P i a
    → ((j : ℕ) → i ≢ j → P j (f j))
    → (j : ℕ) → P j (put f i a j)
put_elim P f i a this others j = elim (Bool-cases (eqb i j)) [
  | inl same ↦ let e : i ≡ j = ground arith in rw same (subst (λ n. P n a) e this)
  | inr other ↦ rw other (others j (λ e. ground arith))
]
