-- ===== src/Pdb/Disruptions.antt =====
-- One disruption after another, each let go by the budget service.
use x_pdb.Prelude.{
  ℕ, ◌+◌, ◌^◌, ◌≤◌, ◌<◌, ◌≡◌, ap, subst, none, some, true, List, [], ◌∷◌, ◌++◌, length,
  length-append, arith, ok, Bool-cases, inl, inr,
}
use x_pdb.Prelude.Int.{pos, ◌+₃₂◌}
use x_pdb.Api.{Pod, IntOrString, Xpdb}
use x_pdb.Pods.{is_pod_ready, counts, count_healthy_pods}
use x_pdb.Pods.Readiness.{healthy_pods, count_healthy_pods_lem}
use x_pdb.Pdb.{Cluster, disruption_allowed}
use x_pdb.Pdb.Budget.{lost, max_unavailable_iff}

abbrev pub healthy : List Pod → ℕ
healthy pods = length (healthy_pods pods)

pub healthy_le : (pods : List Pod) → healthy pods ≤ length pods
unfolding healthy_pods
healthy_le [] = omega arith
healthy_le (p ∷ ps) = elim (Bool-cases (counts p.deletion_timestamp (is_pod_ready p))) [
  | inl c ↦ rw c (omega (arith, healthy_le ps))
  | inr c ↦ rw c (omega (arith, healthy_le ps))
]

healthy-append : (xs ys : List Pod) → healthy (xs ++ ys) ≡ healthy xs + healthy ys
unfolding healthy_pods
healthy-append [] ys = omega arith
healthy-append (x ∷ xs) ys = elim (Bool-cases (counts x.deletion_timestamp (is_pod_ready x))) [
  | inl c ↦ rw c (omega (arith, healthy-append xs ys))
  | inr c ↦ rw c (healthy-append xs ys)
]

-- The pods of two clusters, counted apart and added up, are counted as if they were in one.
pub count_healthy_pods-append :
    (xs ys : List Pod)
    → length xs + length ys < 2 ^ 31
    → count_healthy_pods (xs ++ ys) ≡ count_healthy_pods xs +₃₂ count_healthy_pods ys
unfolding ◌+₃₂◌
count_healthy_pods-append xs ys few =
    let fx = healthy_le xs in
    let fy = healthy_le ys in
    let both = length-append xs ys in
    let whole = count_healthy_pods_lem (xs ++ ys) (omega arith) in
    let left = count_healthy_pods_lem xs (omega arith) in
    let right = count_healthy_pods_lem ys (omega arith) in
    rw (whole, left, right, healthy-append xs ys) (ground arith)

-- A pod that is being deleted.
abbrev pub marked : ℕ → Pod → Pod
marked time pod = record pod { deletion_timestamp = some time }

-- What a disruption costs is what the budget reckons with.
pub disrupted :
    (before : List Pod) (pod : Pod) (after : List Pod) (time : ℕ)
    → pod.deletion_timestamp ≡ none
    → healthy (before ++ pod ∷ after) ≡ healthy (before ++ marked time pod ∷ after) + lost pod
unfolding healthy_pods
disrupted [] pod after time live =
    let live' : counts pod.deletion_timestamp (is_pod_ready pod) ≡ is_pod_ready pod =
      ap (λ d. counts d (is_pod_ready pod)) live in
    elim (Bool-cases (is_pod_ready pod)) [
      | inl up ↦ rw (live', up) (omega arith)
      | inr down ↦ rw (live', down) (omega arith)
    ]
disrupted (p ∷ ps) pod after time live =
    elim (Bool-cases (counts p.deletion_timestamp (is_pod_ready p))) [
      | inl c ↦ rw c (omega (arith, disrupted ps pod after time live))
      | inr c ↦ rw c (disrupted ps pod after time live)
    ]

module _ (cluster : Cluster) (xpdb : Xpdb) (expected : ℕ) where
  -- A pod that is not being deleted is disrupted, after the service has let it go by the pods as they
  -- are; or anything else happens that costs no healthy pod.
  pub data Step : List Pod → List Pod → Type 0 where
    disrupt :
        (before : List Pod) (pod : Pod) (after : List Pod) (time : ℕ)
        → pod.deletion_timestamp ≡ none
        → disruption_allowed cluster
            (some xpdb)
            pod
            (pos expected)
            (count_healthy_pods (before ++ pod ∷ after))
          ≡ ok true
        → Step (before ++ pod ∷ after) (before ++ marked time pod ∷ after)
    recover : (ps qs : List Pod) → healthy ps ≤ healthy qs → length qs + 1 < 2 ^ 31 → Step ps qs

  pub data Steps : List Pod → List Pod → Type 0 where
    none_yet : {ps : List Pod} → Steps ps ps
    then_one : {ps qs rs : List Pod} → Steps ps qs → Step qs rs → Steps ps rs

  module _ (m : IntOrString) (n : ℕ) (e_fits : expected < 2 ^ 31) (n_fits : n < 2 ^ 31)
      (is_max : xpdb.spec.max_unavailable ≡ some m)
      (scaled : cluster.scaled_value m (pos expected) true ≡ ok (pos n)) where
    -- At most `n` of the expected pods are not healthy, and the pods can be counted.
    abbrev pub Respected : List Pod → Type 0
    Respected ps = (expected ≤ healthy ps + n) × (length ps + 1 < 2 ^ 31)

    Step-Respected : {ps qs : List Pod} → Step ps qs → Respected ps → Respected qs
    Step-Respected (recover ps qs more few) (kept, short) = (omega arith, few)
    Step-Respected (disrupt before pod after time live allowed) (kept, short) =
        let ps = before ++ pod ∷ after in
        let h = healthy ps in
        let few = healthy_le ps in
        let counted = count_healthy_pods_lem ps (omega arith) in
        let fits =
          (max_unavailable_iff cluster xpdb pod expected h e_fits (omega arith) m n n_fits is_max
              scaled).0
            (subst (λ c. disruption_allowed cluster (some xpdb) pod (pos expected) c ≡ ok true)
              counted allowed) in
        let cost = disrupted before pod after time live in
        (
          omega arith,
          omega (
            arith,
            length-append before (pod ∷ after),
            length-append before (marked time pod ∷ after),
          ),
        )

    -- With `maxUnavailable` worth `n` pods, no sequence of disruptions that the budget service lets go by
    -- the pods as they are brings the healthy pods below the expected ones by more than `n`, where it
    -- was so at first, nothing else costs a healthy pod, and the pods, the expected ones and `n` are
    -- fewer than 2^31.
    pub Steps-Respected : {ps qs : List Pod} → Steps ps qs → Respected ps → Respected qs
    Steps-Respected none_yet kept = kept
    Steps-Respected (then_one ss s) kept = Step-Respected s (Steps-Respected ss kept)
