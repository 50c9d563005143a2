-- ===== src/Pods/Readiness.antt =====
-- What readiness and the count of healthy pods mean.
use x_pdb.Prelude.{
  ℕ, zero, suc, ◌+◌, ◌^◌, ◌<◌, ◌≡◌, refl, ◌≢◌, ◌⊎◌, inl, inr, String, none, some, List, [], ◌∷◌,
  ◌==◌, if◌then◌else◌, eq_iff, arith, length, Bool-cases,
}
use x_pdb.Prelude.Int.{pos, negsuc, ◌+₃₂◌}
use x_pdb.Api.{Pod, PodCondition}
use x_pdb.Pods.{
  condition_from, get_pod_condition_from_list, is_pod_ready, counts, count_from, count_healthy_pods,
}

-- No condition of the list has the type.
abbrev pub Lacks : String → List PodCondition → Type 0
Lacks t [] = Unit
Lacks t (c ∷ cs) = (c.type ≢ t) × Lacks t cs

-- `c` is the first condition of that type, at index `i`.
abbrev pub FirstAt : String → ℕ → PodCondition → List PodCondition → Type 0
FirstAt t i c [] = ⊥
FirstAt t zero c (d ∷ ds) = (d ≡ c) × (c.type ≡ t)
FirstAt t (suc i) c (d ∷ ds) = (d.type ≢ t) × FirstAt t i c ds

condition_from_lem :
    (n : ℕ) (cs : List PodCondition) (t : String)
    → (Lacks t cs × (condition_from n cs t ≡ (negsuc 0, none)))
      ⊎ ((i : ℕ) × (c : PodCondition) × FirstAt t i c cs
          × (condition_from n cs t ≡ (pos (n + i), some c)))
unfolding condition_from
condition_from_lem n [] t = inl (tt, refl)
condition_from_lem n (c ∷ cs) t = elim (Bool-cases (c.type == t)) [
  | inl hit ↦ inr (0, c, (refl, (eq_iff c.type t).0 hit), ground arith)
  | inr miss ↦ elim (condition_from_lem (n + 1) cs t) [
    | inl (l, e) ↦ inl ((ground (arith, eq_iff c.type t), l), rw (miss, e))
    | inr (i, d, f, e) ↦
        inr (suc i, d, (ground (arith, eq_iff c.type t), f), rw miss (ground (arith, e)))
  ]
]

-- GetPodConditionFromList returns -1 and nil exactly where no condition has the type, and otherwise
-- the first condition that has it, with its index.
pub get_pod_condition_from_list_lem :
    (cs : List PodCondition) (t : String)
    → (Lacks t cs × (get_pod_condition_from_list cs t ≡ (negsuc 0, none)))
      ⊎ ((i : ℕ) × (c : PodCondition) × FirstAt t i c cs
          × (get_pod_condition_from_list cs t ≡ (pos i, some c)))
unfolding get_pod_condition_from_list
get_pod_condition_from_list_lem cs t = elim (condition_from_lem 0 cs t) [
  | inl h ↦ inl h
  | inr (i, c, f, e) ↦ inr (i, c, f, ground (arith, e))
]

-- The pods that are ready and are not being deleted.
unfoldable pub healthy_pods : List Pod → List Pod
healthy_pods [] = []
healthy_pods (p ∷ ps) =
    let rest = healthy_pods ps in
    if counts p.deletion_timestamp (is_pod_ready p) then p ∷ rest else rest

count_from_lem :
    (n : ℕ) (ps : List Pod)
    → n + length ps < 2 ^ 31
    → count_from (pos n) ps ≡ pos (n + length (healthy_pods ps))
unfolding count_from healthy_pods ◌+₃₂◌
count_from_lem n [] h = ground arith
count_from_lem n (p ∷ ps) h = elim (Bool-cases (counts p.deletion_timestamp (is_pod_ready p))) [
  | inl c ↦ rw c (ground (arith, count_from_lem (n + 1) ps (omega arith)))
  | inr c ↦ rw c (count_from_lem n ps (omega arith))
]

-- countHealthyPods counts the healthy pods, where there are fewer than 2^31 pods.
pub count_healthy_pods_lem :
    (ps : List Pod) → length ps < 2 ^ 31 → count_healthy_pods ps ≡ pos (length (healthy_pods ps))
unfolding count_healthy_pods
count_healthy_pods_lem ps h = ground (arith, count_from_lem 0 ps)
