-- ===== src/Lease/Keys.antt =====
-- Keys can be compared.
use x_pdb.Prelude.{
  ℕ, ◌≡◌, refl, ◌↔◌, Bool, true, false, ◌&&◌, List, [], ◌∷◌, ◌==◌, eqb, eq_iff, Bool-cases, inl,
  inr, arith,
}
use x_pdb.Lease.{Key}

pub same_bytes : List ℕ → List ℕ → Bool
same_bytes [] [] = true
same_bytes (b ∷ bs) (c ∷ cs) = eqb b c && same_bytes bs cs
same_bytes _ _ = false

same_bytes_iff : (bs cs : List ℕ) → (same_bytes bs cs ≡ true) ↔ (bs ≡ cs)
unfolding same_bytes
same_bytes_iff [] [] = (λ e. refl, λ e. refl)
same_bytes_iff [] (c ∷ cs) = (λ e. cc, λ e. cc)
same_bytes_iff (b ∷ bs) [] = (λ e. cc, λ e. cc)
same_bytes_iff (b ∷ bs) (c ∷ cs) = ground (arith, same_bytes_iff bs cs)

unfoldable pub same_key : Key → Key → Bool
unfolding same_bytes
same_key k j = k.namespace == j.namespace && same_bytes k.name j.name

pub same_key_iff : (k j : Key) → (same_key k j ≡ true) ↔ (k ≡ j)
unfolding same_key
same_key_iff k j = ground (arith, eq_iff k.namespace j.namespace, same_bytes_iff k.name j.name)

pub Key-discrete : Discrete Key
Key-discrete k j = elim (Bool-cases (same_key k j)) [
  | inl e ↦ yes ((same_key_iff k j).0 e)
  | inr e ↦ no (λ p. ground (arith, same_key_iff k j))
]
