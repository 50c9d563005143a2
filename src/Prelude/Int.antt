-- ===== src/Prelude/Int.antt =====
-- Signed integers over the native numbers, and Go's int32 as the integers from -2^31 to 2^31 - 1.
pub mod Wrap
use Prim.Native.Nat.{ℕ, suc, ◌+◌, ◌-◌, ◌%◌, ◌^◌, ◌≤◌}
use mathlib.Core.Path.{◌≡◌}
use mathlib.Core.Logic.{◌↔◌}
use mathlib.Core.Bool.{Bool, true}
use native.Mathlib.Omega.{arith}
use x_pdb.Prelude.Tests.{ltb, leb, if◌then◌else◌}

-- `negsuc n` is -(n + 1).
pub data ℤ : Type 0 where
  pos : ℕ → ℤ
  negsuc : ℕ → ℤ

abbrev pub pos_part : ℤ → ℕ
pos_part (pos n) = n
pos_part (negsuc n) = 0

abbrev pub neg_part : ℤ → ℕ
neg_part (pos n) = 0
neg_part (negsuc n) = suc n

-- a - b, as an integer.
abbrev pub sub_ℕ : ℕ → ℕ → ℤ
sub_ℕ a b = if leb b a then pos (a - b) else negsuc (b - a - 1)

infixl 65 ◌+ℤ◌ ◌-ℤ◌
infix 50 ◌≤ℤ◌
unfoldable pub ◌+ℤ◌ : ℤ → ℤ → ℤ
a +ℤ b = sub_ℕ (pos_part a + pos_part b) (neg_part a + neg_part b)

unfoldable pub ◌-ℤ◌ : ℤ → ℤ → ℤ
a -ℤ b = sub_ℕ (pos_part a + neg_part b) (neg_part a + pos_part b)

abbrev pub ◌≤ℤ◌ : ℤ → ℤ → Type 0
a ≤ℤ b = pos_part a + neg_part b ≤ pos_part b + neg_part a

abbrev pub leb_ℤ : ℤ → ℤ → Bool
leb_ℤ a b = leb (pos_part a + neg_part b) (pos_part b + neg_part a)

pub +ℤ_parts :
    (a b : ℤ)
    → pos_part (a +ℤ b) + neg_part a + neg_part b ≡ neg_part (a +ℤ b) + pos_part a + pos_part b
unfolding ◌+ℤ◌
+ℤ_parts a b = ground arith

pub -ℤ_parts :
    (a b : ℤ)
    → pos_part (a -ℤ b) + neg_part a + pos_part b ≡ neg_part (a -ℤ b) + pos_part a + neg_part b
unfolding ◌-ℤ◌
-ℤ_parts a b = ground arith

pub eq_of_parts : (a b : ℤ) → pos_part a + neg_part b ≡ pos_part b + neg_part a → a ≡ b
eq_of_parts a b h = ground arith

pub leb_ℤ_iff : (a b : ℤ) → (leb_ℤ a b ≡ true) ↔ (a ≤ℤ b)
leb_ℤ_iff a b = ground arith

-- The bit pattern of an integer in 32 bits, and the int32 that a pattern stands for.
abbrev bits : ℤ → ℕ
bits (pos n) = n % 2 ^ 32
bits (negsuc n) = 2 ^ 32 - 1 - n % 2 ^ 32

abbrev signed32 : ℕ → ℤ
signed32 w = if ltb w (2 ^ 31) then pos w else negsuc (2 ^ 32 - w - 1)

-- Go's conversion `int32(z)`.
unfoldable pub wrap32 : ℤ → ℤ
wrap32 z = signed32 (bits z)

pub record Int32 (z : ℤ) : Type 0 where
  pub low : negsuc (2 ^ 31 - 1) ≤ℤ z
  pub high : z ≤ℤ pos (2 ^ 31 - 1)

infixl 65 ◌+₃₂◌ ◌-₃₂◌
unfoldable pub ◌+₃₂◌ : ℤ → ℤ → ℤ
unfolding wrap32 ◌+ℤ◌
a +₃₂ b = wrap32 (a +ℤ b)

unfoldable pub ◌-₃₂◌ : ℤ → ℤ → ℤ
unfolding wrap32 ◌-ℤ◌
a -₃₂ b = wrap32 (a -ℤ b)

-- A conversion always gives an int32, and leaves an int32 as it is.
pub wrap32-Int32 : (z : ℤ) → Int32 (wrap32 z)
unfolding wrap32
wrap32-Int32 z = ground arith

pub wrap32_eq : (z : ℤ) → Int32 z → wrap32 z ≡ z
unfolding wrap32
wrap32_eq (pos n) h = ground arith
wrap32_eq (negsuc n) h = ground arith
