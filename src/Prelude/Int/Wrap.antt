-- ===== src/Prelude/Int/Wrap.antt =====
-- Sums of 32 bit numbers do not depend on their order.
use x_pdb.Prelude.{ℕ, ◌+◌, ◌%◌, ◌^◌, ◌≡◌, ap, arith}
use x_pdb.Prelude.Int.{ℤ, pos, negsuc, bits, signed32, ◌+₃₂◌, ◌+ℤ◌}

pub ℤ-set : IsSet ℤ
ℤ-set = hlevel

bits-signed32 : (w : ℕ) → bits (signed32 (w % 2 ^ 32)) ≡ w % 2 ^ 32
bits-signed32 w = ground arith

bits-+ℤ : (a b : ℤ) → bits (a +ℤ b) ≡ (bits a + bits b) % 2 ^ 32
unfolding ◌+ℤ◌
bits-+ℤ (pos a) (pos b) = ground arith
bits-+ℤ (pos a) (negsuc b) = ground arith
bits-+ℤ (negsuc a) (pos b) = ground arith
bits-+ℤ (negsuc a) (negsuc b) = ground arith

+₃₂-bits : (a b : ℤ) → a +₃₂ b ≡ signed32 ((bits a + bits b) % 2 ^ 32)
unfolding ◌+₃₂◌
+₃₂-bits a b = ap signed32 (bits-+ℤ a b)

rotate : (x y z : ℕ) → ((x + y) % 2 ^ 32 + z) % 2 ^ 32 ≡ ((x + z) % 2 ^ 32 + y) % 2 ^ 32
rotate x y z = omega arith

pub +₃₂-right_comm : (a b c : ℤ) → a +₃₂ b +₃₂ c ≡ a +₃₂ c +₃₂ b
+₃₂-right_comm a b c =
    rw
      (
        +₃₂-bits (a +₃₂ b) c,
        +₃₂-bits (a +₃₂ c) b,
        +₃₂-bits a b,
        +₃₂-bits a c,
        bits-signed32 (bits a + bits b),
        bits-signed32 (bits a + bits c),
      )
      (ap signed32 (rotate (bits a) (bits b) (bits c)))
