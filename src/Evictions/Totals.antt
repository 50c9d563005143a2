-- ===== src/Evictions/Totals.antt =====
-- Sums over the clusters, and what the counts of all clusters add up to.
use mathlib.Core.List.{Mem, Perm, not-mem-nil, eq-or-mem_of_mem-cons}
use mathlib.Core.HLevel.{⊥_prop}
use mathlib.Core.Logic.Or
use mathlib.Core.List.Perm
use x_pdb.Prelude.{
  put, ℕ, zero, suc, ◌+◌, ◌^◌, ◌≤◌, ◌<◌, ◌≡◌, refl, ap, sym, ◌∙◌, List, [], ◌∷◌, map, eqb, ltb,
  arith, Bool-cases, inl, inr,
}
use x_pdb.Prelude.Int.{pos, ◌+₃₂◌}
use x_pdb.Proto.{GetStateResponse}
use x_pdb.Pdb.{Counts, no_counts, sum_counts}
use x_pdb.Pdb.FailClosed.{sum_counts-perm, sum_counts-swap, plus}
use x_pdb.Evictions.{below, total}

pub total-le : (f g : ℕ → ℕ) (k : ℕ) → ((c : ℕ) → c < k → f c ≤ g c) → total f k ≤ total g k
total-le f g zero h = omega arith
total-le f g (suc k) h = omega (arith, h k (omega arith), total-le f g k (λ c l. h c (omega arith)))

pub le-total : (f : ℕ → ℕ) (k c : ℕ) → c < k → f c ≤ total f k
le-total f zero c h = absurd (omega arith)
le-total f (suc k) c h = elim (Bool-cases (eqb k c)) [
  | inl same ↦ let e : k ≡ c = ground arith in let d = ap f e in omega arith
  | inr other ↦ omega (arith, le-total f k c (ground arith))
]

module _ {ℓ} {A : Type ℓ} (f : A → ℕ) (g : ℕ → A) (i : ℕ) (a : A) where
  total-put_above : (k : ℕ) → k ≤ i → total (λ c. f (put g i a c)) k ≡ total (λ c. f (g c)) k
  total-put_above zero h = refl
  total-put_above (suc k) h = elim (Bool-cases (eqb i k)) [
    | inl same ↦ absurd (ground arith)
    | inr other ↦ rw other (omega (arith, total-put_above k (omega arith)))
  ]

  pub total-put :
      (k : ℕ) → i < k → total (λ c. f (put g i a c)) k + f (g i) ≡ total (λ c. f (g c)) k + f a
  total-put zero h = absurd (omega arith)
  total-put (suc k) h = elim (Bool-cases (eqb i k)) [
    | inl same ↦
        let e : i ≡ k = ground arith in
        let d = ap (λ c. f (g c)) e in rw same (omega (arith, total-put_above k (omega arith)))
    | inr other ↦ rw other (omega (arith, total-put k (ground arith)))
  ]

pub mem-below : (k c : ℕ) → Mem c (below k) → c < k
mem-below zero c m = absurd (not-mem-nil m)
mem-below (suc k) c m = elim (Bool-cases (ltb c (suc k))) [
  | inl below ↦ ground arith
  | inr above ↦ absurd (
      Or.elim ⊥_prop (eq-or-mem_of_mem-cons m) (λ e. ground arith)
        (λ n. let l = mem-below k c n in ground arith))
]

+₃₂-pos : (a b : ℕ) → a + b < 2 ^ 31 → pos a +₃₂ pos b ≡ pos (a + b)
unfolding ◌+₃₂◌
+₃₂-pos a b h = ground arith

sum_counts-last :
    (c : Counts) (x : GetStateResponse) (zs : List GetStateResponse)
    → sum_counts c (x ∷ zs) ≡ plus (sum_counts c zs) x
unfolding sum_counts
sum_counts-last c x [] = refl
sum_counts-last c x (z ∷ zs) = sum_counts-swap c x z zs ∙ sum_counts-last (plus c z) x zs

abbrev pub both : ℕ → ℕ → Counts
both e h = record { expected = pos e; healthy = pos h }

sum_counts-below :
    (k a b : ℕ) (r : ℕ → GetStateResponse) (e h : ℕ → ℕ)
    → ((c : ℕ) → c < k → r c ≡ record { desired_healthy = pos (e c); healthy = pos (h c) })
    → a + total e k < 2 ^ 31
    → b + total h k < 2 ^ 31
    → sum_counts (both a b) (map r (below k)) ≡ both (a + total e k) (b + total h k)
unfolding sum_counts
sum_counts-below zero a b r e h known p q = ground arith
sum_counts-below (suc k) a b r e h known p q =
    rw (known k (omega arith), +₃₂-pos a (e k) (omega arith), +₃₂-pos b (h k) (omega arith))
      (sum_counts-below k (a + e k) (b + h k) r e h (λ c l. known c (omega arith)) (omega arith)
          (omega arith)
        ∙ ground arith)

-- The counts that a request adds up: those of the other clusters, and then its own.
pub sums_lem :
    (k : ℕ) (r : ℕ → GetStateResponse) (e h : ℕ → ℕ) (c : ℕ) (cs : List ℕ)
    → Perm (c ∷ cs) (below k)
    → ((d : ℕ) → d < k → r d ≡ record { desired_healthy = pos (e d); healthy = pos (h d) })
    → total e k < 2 ^ 31
    → total h k < 2 ^ 31
    → plus (sum_counts no_counts (map r cs)) (r c) ≡ both (total e k) (total h k)
sums_lem k r e h c cs p known few few' =
    sym (sum_counts-last no_counts (r c) (map r cs))
    ∙ sum_counts-perm no_counts (map r (c ∷ cs)) (map r (below k)) (Perm.map r p)
    ∙ sum_counts-below k 0 0 r e h known (omega arith) (omega arith)
    ∙ ground arith
