-- ===== src/Pdb/Budget.antt =====
-- What a disruption budget means, as arithmetic on the counts.
use x_pdb.Prelude.{
  ℕ, ◌+◌, ◌*◌, ◌-◌, ◌/◌, ◌^◌, ◌≤◌, ◌<◌, ◌≡◌, ◌↔◌, Bool, true, none, some, if◌then◌else◌, arith,
  subst, ◌>>=◌, ok, err, String, Error,
}
use x_pdb.Prelude.Int.{ℤ, negsuc, ◌≤ℤ◌, pos, ◌+₃₂◌, ◌-₃₂◌, wrap32, leb_ℤ}
use x_pdb.Api.{Pod, IntOrString, int, str, Xpdb}
use x_pdb.Pods.{is_pod_ready}
use x_pdb.Pdb.{Cluster, desired_healthy, healthy_compensation, disruption_allowed}

-- The healthy pods that the disruption costs: one if the pod is ready.
abbrev pub lost : Pod → ℕ
lost pod = if is_pod_ready pod then 1 else 0

-- What is left of `h` healthy pods, with the compensation for a pod that is not ready.
remaining :
    (pod : Pod) (h d : ℕ)
    → h + 1 < 2 ^ 31
    → d < 2 ^ 31
    → (leb_ℤ (pos d) (pos h +₃₂ healthy_compensation pod -₃₂ pos 1) ≡ true) ↔ (d + lost pod ≤ h)
unfolding healthy_compensation ◌+₃₂◌ ◌-₃₂◌
remaining pod h d p q = ground arith

-- The same for a threshold that is `e - m`, which may be negative.
remaining-sub :
    (pod : Pod) (h e m : ℕ)
    → h + 1 < 2 ^ 31
    → e < 2 ^ 31
    → m < 2 ^ 31
    → (leb_ℤ (pos e -₃₂ wrap32 (pos m)) (pos h +₃₂ healthy_compensation pod -₃₂ pos 1) ≡ true)
      ↔ (e + lost pod ≤ h + m)
unfolding healthy_compensation ◌+₃₂◌ ◌-₃₂◌
remaining-sub pod h e m p q r = ground arith

ok-Bool : {b : Bool} → ok b ≡ ok true → b ≡ true
ok-Bool h = cc

percent_le : (p e : ℕ) → p ≤ 100 → (p * e + 99) / 100 ≤ e
percent_le p e h = let q : p * e ≤ 100 * e = grind arith in omega arith

percent_ceil : (x l h : ℕ) → ((x + 99) / 100 + l ≤ h) ↔ ((x ≤ 100 * (h - l)) × (l ≤ h))
percent_ceil x l h = (λ a. omega arith, λ b. omega arith)

fits : (d : ℕ) → d < 2 ^ 31 → wrap32 (pos d) ≡ pos d
unfolding wrap32
fits d h = ground arith

module _ (cluster : Cluster) (xpdb : Xpdb) (pod : Pod) (e h : ℕ) (e_fits : e < 2 ^ 31)
    (h_fits : h + 1 < 2 ^ 31) where
  -- With `maxUnavailable` worth `m` pods, a disruption is allowed exactly if the `e` expected pods
  -- outnumber the healthy ones that are left after it by at most `m`.
  pub max_unavailable_iff :
      (m : IntOrString) (n : ℕ)
      → n < 2 ^ 31
      → xpdb.spec.max_unavailable ≡ some m
      → cluster.scaled_value m (pos e) true ≡ ok (pos n)
      → (disruption_allowed cluster (some xpdb) pod (pos e) (pos h) ≡ ok true)
        ↔ (e + lost pod ≤ h + n)
  unfolding disruption_allowed
  max_unavailable_iff m n n_fits is_max scaled =
      let (to, from) = remaining-sub pod h e n h_fits e_fits n_fits in
      rw (is_max, disruption_allowed, desired_healthy, scaled)
        ((λ a. to (ok-Bool a)), (λ b. rw (from b)))

  -- With `minAvailable` a number, a disruption is allowed exactly if that many healthy pods are left
  -- after it. The number of expected pods does not matter.
  pub min_available_iff :
      (n : ℕ)
      → n < 2 ^ 31
      → xpdb.spec.max_unavailable ≡ none
      → xpdb.spec.min_available ≡ some (int (pos n))
      → (disruption_allowed cluster (some xpdb) pod (pos e) (pos h) ≡ ok true) ↔ (n + lost pod ≤ h)
  unfolding disruption_allowed
  min_available_iff n n_fits no_max is_min =
      let (to, from) = remaining pod h n h_fits n_fits in
      rw (no_max, is_min, disruption_allowed, desired_healthy)
        ((λ a. to (ok-Bool a)), (λ b. rw (from b)))

  -- With `minAvailable` the percentage `p`, a disruption is allowed exactly if after it at least that
  -- part of the expected pods is healthy. `scaled` is what apimachinery documents: the product is
  -- rounded up.
  pub min_percent_iff :
      (s : String) (p : ℕ)
      → (scaled : cluster.scaled_value (str s) (pos e) true ≡ ok (pos ((p * e + 99) / 100)))
      → p ≤ 100
      → xpdb.spec.max_unavailable ≡ none
      → xpdb.spec.min_available ≡ some (str s)
      → (disruption_allowed cluster (some xpdb) pod (pos e) (pos h) ≡ ok true)
        ↔ (p * e ≤ 100 * (h - lost pod)) × (lost pod ≤ h)
  unfolding disruption_allowed wrap32
  min_percent_iff s p scaled p_fits no_max is_min =
      let d = (p * e + 99) / 100 in
      let small : d < 2 ^ 31 = omega (arith, percent_le p e p_fits) in
      let (to, from) = remaining pod h d h_fits small in
      let (up, down) = percent_ceil (p * e) (lost pod) h in
      rw (no_max, is_min, disruption_allowed, desired_healthy, scaled, fits d small)
        ((λ a. up (to (ok-Bool a))), (λ b. rw (from (down b))))

  -- Where the value cannot be read, the disruption is not allowed but an error.
  pub unreadable_errs :
      (m : IntOrString) (x : Error)
      → xpdb.spec.max_unavailable ≡ some m
      → cluster.scaled_value m (pos e) true ≡ err x
      → disruption_allowed cluster (some xpdb) pod (pos e) (pos h) ≡ err x
  unfolding disruption_allowed
  unreadable_errs m x is_max scaled = ground arith

kept :
    (d : ℤ) (pod : Pod) (s before after : ℕ)
    → s + 1 < 2 ^ 31
    → s ≤ before
    → before ≡ after + lost pod
    → leb_ℤ d (pos s +₃₂ healthy_compensation pod -₃₂ pos 1) ≡ true
    → d ≤ℤ pos after
unfolding healthy_compensation ◌+₃₂◌ ◌-₃₂◌
kept (pos n) pod s before after few le cost fits = ground arith
kept (negsuc n) pod s before after few le cost fits = ground arith

-- A disruption that is let go by a count of `s` healthy pods, of which there are at least so many, leaves
-- as many as the budget wants.
pub disruption_allowed-keeps :
    (cluster : Cluster) (xpdb : Xpdb) (pod : Pod) (e d : ℤ) (s before after : ℕ)
    → desired_healthy cluster xpdb.spec.max_unavailable xpdb.spec.min_available e ≡ ok d
    → disruption_allowed cluster (some xpdb) pod e (pos s) ≡ ok true
    → s + 1 < 2 ^ 31
    → s ≤ before
    → before ≡ after + lost pod
    → d ≤ℤ pos after
unfolding disruption_allowed
disruption_allowed-keeps cluster xpdb pod e d s before after wanted allowed few le cost =
    kept d pod s before after few le cost (
      ok-Bool (
        subst
          (λ r. (r >>= λ x. ok (leb_ℤ x (pos s +₃₂ healthy_compensation pod -₃₂ pos 1))) ≡ ok true)
          wanted allowed))
