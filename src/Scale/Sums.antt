-- ===== src/Scale/Sums.antt =====
-- The sum at the end of FindExpectedScale, whatever the order in which Go walks over the map.
use mathlib.Core.List.{Perm}
use x_pdb.Prelude.{◌≡◌, refl, loop-perm, String, List, ◌∷◌}
use x_pdb.Prelude.Int.{ℤ, ◌+₃₂◌}
use x_pdb.Prelude.Int.Wrap.{ℤ-set, +₃₂-right_comm}
use x_pdb.Scale.{add_up}

unrolled :
    (z : ℤ) (x : String × ℤ) (xs : List (String × ℤ)) → add_up z (x ∷ xs) ≡ add_up (z +₃₂ x.1) xs
unfolding add_up
unrolled z x xs = refl

-- The scales may be added up in any order.
pub add_up-perm : (z : ℤ) (xs ys : List (String × ℤ)) → Perm xs ys → add_up z xs ≡ add_up z ys
add_up-perm = loop-perm ℤ-set add_up (λ z x. z +₃₂ x.1) unrolled (λ z x y. +₃₂-right_comm z x.1 y.1)
