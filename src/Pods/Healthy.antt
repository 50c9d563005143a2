-- ===== src/Pods/Healthy.antt =====
-- What countHealthyPods counts, said without the program's own tests.
use x_pdb.Prelude.{
  ℕ, zero, suc, ◌+◌, ◌^◌, ◌<◌, ◌≡◌, refl, ap, subst, ◌≢◌, ◌⊎◌, inl, inr, ◌↔◌, true, none, List, [],
  ◌∷◌, ◌==◌, eq_iff, arith, length, Bool-cases,
}
use x_pdb.Prelude.Int.{pos}
use x_pdb.Api.{Pod, PodCondition}
use x_pdb.Pods.{
  condition_true, condition_from, get_pod_condition_from_list, get_pod_condition,
  get_pod_ready_condition, is_pod_ready_condition_true, is_pod_ready, counts, count_healthy_pods,
}
use x_pdb.Pods.Readiness.{healthy_pods, count_healthy_pods_lem}

-- There is a condition of the type "Ready", and the first one has the status "True".
abbrev pub Ready : List PodCondition → Type 0
Ready [] = ⊥
Ready (c ∷ cs) = ((c.type ≡ "Ready") × (c.status ≡ "True")) ⊎ ((c.type ≢ "Ready") × Ready cs)

-- A healthy pod is ready and is not being deleted.
abbrev pub Healthy : Pod → Type 0
Healthy p = (p.deletion_timestamp ≡ none) × Ready p.status.conditions

-- As many pods of the list are healthy.
pub data Healthies : List Pod → ℕ → Type 0 where
  nobody : Healthies [] zero
  healthy :
      {p : Pod} {ps : List Pod} {n : ℕ} → Healthy p → Healthies ps n → Healthies (p ∷ ps) (suc n)
  unhealthy :
      {p : Pod} {ps : List Pod} {n : ℕ} → ¬ Healthy p → Healthies ps n → Healthies (p ∷ ps) n

condition_from-Ready :
    (n : ℕ) (cs : List PodCondition)
    → (condition_true (condition_from n cs "Ready").1 ≡ true) ↔ Ready cs
unfolding condition_from
condition_from-Ready n [] = ((λ e. cc), (λ r. absurd r))
condition_from-Ready n (c ∷ cs) =
    let rest = condition_from-Ready (n + 1) cs in
    elim (Bool-cases (c.type == "Ready")) [
      | inl hit ↦ rw hit (
        (λ e. inl ((eq_iff c.type "Ready").0 hit, (eq_iff c.status "True").0 e)),
        (λ r. elim r [
          | inl (t, s) ↦ (eq_iff c.status "True").1 s
          | inr (t, q) ↦ absurd (t ((eq_iff c.type "Ready").0 hit))
        ]),
      )
      | inr miss ↦ rw miss (
        (λ e. inr (ground (arith, eq_iff c.type "Ready"), rest.0 e)),
        (λ r. elim r [
          | inl (t, s) ↦ absurd (ground (arith, eq_iff c.type "Ready"))
          | inr (t, q) ↦ rest.1 q
        ]),
      )
    ]

counts-Healthy : (p : Pod) → (counts p.deletion_timestamp (is_pod_ready p) ≡ true) ↔ Healthy p
unfolding is_pod_ready is_pod_ready_condition_true get_pod_ready_condition get_pod_condition
    get_pod_condition_from_list
counts-Healthy p =
    let ready = condition_from-Ready 0 p.status.conditions in
    ((λ e. (ground arith, ready.0 (ground arith))), (λ h. let gone = h.0 in rw gone (ready.1 h.1)))

healthy_pods-Healthies : (ps : List Pod) → Healthies ps (length (healthy_pods ps))
unfolding healthy_pods
healthy_pods-Healthies [] = Healthies.nobody
healthy_pods-Healthies (p ∷ ps) =
    let rest = healthy_pods-Healthies ps in
    elim (Bool-cases (counts p.deletion_timestamp (is_pod_ready p))) [
      | inl c ↦ rw c (Healthies.healthy ((counts-Healthy p).0 c) rest)
      | inr c ↦ rw c (Healthies.unhealthy (λ h. ground (arith, (counts-Healthy p).1 h)) rest)
    ]

Healthies-unique : {ps : List Pod} {n m : ℕ} → Healthies ps n → Healthies ps m → n ≡ m
Healthies-unique Healthies.nobody Healthies.nobody = refl
Healthies-unique (Healthies.healthy h r) (Healthies.healthy i q) = ap suc (Healthies-unique r q)
Healthies-unique (Healthies.healthy h r) (Healthies.unhealthy i q) = absurd (i h)
Healthies-unique (Healthies.unhealthy h r) (Healthies.healthy i q) = absurd (h i)
Healthies-unique (Healthies.unhealthy h r) (Healthies.unhealthy i q) = Healthies-unique r q

-- countHealthyPods returns n exactly if n pods of the list are healthy, which are those that are not
-- being deleted and whose first condition of the type "Ready" has the status "True", where there are
-- fewer than 2^31 pods.
pub count_healthy_pods-Healthies :
    (ps : List Pod) (n : ℕ) → length ps < 2 ^ 31 → (count_healthy_pods ps ≡ pos n) ↔ Healthies ps n
count_healthy_pods-Healthies ps n few =
    let counted = count_healthy_pods_lem ps few in
    let right = healthy_pods-Healthies ps in
    (
      (λ e. subst (Healthies ps) (ground (arith, counted, e)) right),
      (λ h. rw (Healthies-unique h right) counted),
    )
