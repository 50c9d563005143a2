-- ===== src/Evictions/Disrupting.antt =====
-- A disruption that the budget service lets go keeps what holds in every state.
use mathlib.Core.List.{mem-cons_self}
use mathlib.Core.List.Perm
use x_pdb.Prelude.{
  put, put_elim, ℕ, ◌+◌, ◌^◌, ◌≤◌, ◌<◌, ◌≡◌, ap, subst, String, true, Option, none, some, arith, ok,
  List, ◌∷◌, ◌++◌, length, length-append,
}
use x_pdb.Prelude.Int.{ℤ, pos, pos_part, ◌+₃₂◌}
use x_pdb.Api.{LabelSelector, Pod, Xpdb}
use x_pdb.Lease.{Key, Lease, Naming}
use x_pdb.LeaseApi.{LeaseApi, IsServer, IsVersioned}
use x_pdb.Lock.Local.Safety.{lock_key}
use x_pdb.Lock.Local.Race.{holding}
use x_pdb.Lock.Local.Race.Facts.{lifetime, Regular}
use x_pdb.Lock.Local.Race.Exclusion.{mutual_exclusion}
use x_pdb.Pdb.{Cluster, Counts, desired_healthy, disruption_allowed}
use x_pdb.Pdb.Budget.{lost, disruption_allowed-keeps}
use x_pdb.Pdb.Disruptions.{healthy, healthy_le, marked, disrupted}
use x_pdb.Evictions.{total, Fleet, World, answer, all_pods, all_healthy, remote}
use x_pdb.Evictions.Invariant.{Invariant, Fair, Told}
use x_pdb.Evictions.Totals.{total-le, total-put, mem-below, both, sums_lem}
use x_pdb.Pdb.FailClosed.{plus}

module _ (fleet : Fleet) {Store : Type 0} (api : LeaseApi Store)
    (holds : Store → Key → Option Lease) (revision : Store → ℕ) (server : IsServer api holds)
    (versions : IsVersioned api holds revision) (names : Naming)
    (lease_namespace namespace : String) (selector : LabelSelector) (identity_of : ℕ → String)
    (apart : (i j : ℕ) → identity_of i ≡ identity_of j → i ≡ j) (ahead : ℕ) (cluster : Cluster)
    (xpdb : Xpdb) (now : ℕ) (store : Store) (d : ℤ) (w : World Store)
    (inv : Invariant fleet api holds revision server versions names lease_namespace namespace
      selector identity_of apart ahead cluster xpdb now store d w) where
  -- The disruption of a pod of the request's own cluster, which was let go by what it was told.
  module _ (few_expected : total fleet.expected fleet.size < 2 ^ 31)
      (threshold : desired_healthy cluster xpdb.spec.max_unavailable xpdb.spec.min_available
          (pos (total fleet.expected fleet.size))
        ≡ ok d)
      (first_lease : Regular holds revision
        (lock_key names lease_namespace namespace selector)
        store)
      (i time : ℕ) (told : ℕ → Counts) (before : List Pod) (pod : Pod) (after : List Pod)
      (deleted_at : ℕ) (at : w.system.pc i ≡ holding time)
      (fresh : w.system.now + ahead < time + lifetime)
      (asked : (c : ℕ) → c < fleet.size → w.seen i c ≡ some (told c))
      (there : w.pods (fleet.home i) ≡ before ++ pod ∷ after)
      (live : pod.deletion_timestamp ≡ none) where
    abbrev h : ℕ → ℕ
    h c = pos_part (told c).healthy

    abbrev left : ℕ → List Pod
    left = put w.pods (fleet.home i) (before ++ marked deleted_at pod ∷ after)

    fair :
        (c : ℕ)
        → c < fleet.size
        → Fair fleet api holds revision server versions names lease_namespace namespace selector
            identity_of apart ahead cluster xpdb now store w.system.now w.pods time c
            (told c)
    fair c l = (inv.told i c (told c) (asked c l)).1 time at

    home_inside : fleet.home i < fleet.size
    home_inside =
        mem-below fleet.size (fleet.home i) ((Perm.mem_iff (fleet.everyone i)).0 mem-cons_self)

    seen_le : total h fleet.size ≤ all_healthy fleet w.pods
    seen_le = total-le h (λ c. healthy (w.pods c)) fleet.size (λ c l. (fair c l).1 fresh)

    healthy_few : all_healthy fleet w.pods ≤ all_pods fleet w.pods
    healthy_few =
        total-le (λ c. healthy (w.pods c)) (λ c. length (w.pods c)) fleet.size
          (λ c l. healthy_le (w.pods c))

    sums :
        plus (remote fleet i told) (answer (told (fleet.home i)))
        ≡ both (total fleet.expected fleet.size) (total h fleet.size)
    sums =
        sums_lem fleet.size (λ c. answer (told c)) fleet.expected h (fleet.home i) (fleet.others i)
          (fleet.everyone i) (λ c l. ap answer (fair c l).0) few_expected
          (omega (arith, seen_le, healthy_few, inv.few))

    cost : all_healthy fleet w.pods ≡ all_healthy fleet left + lost pod
    cost =
        let new = before ++ marked deleted_at pod ∷ after in
        omega (
          arith,
          total-put healthy w.pods (fleet.home i) new fleet.size home_inside,
          ap healthy there,
          disrupted before pod after deleted_at live,
        )

    same_length : all_pods fleet left ≡ all_pods fleet w.pods
    same_length =
        let new = before ++ marked deleted_at pod ∷ after in
        omega (
          arith,
          total-put length w.pods (fleet.home i) new fleet.size home_inside,
          ap length there,
          length-append before (pod ∷ after),
          length-append before (marked deleted_at pod ∷ after),
        )

    pub evict-Invariant :
        disruption_allowed cluster
            (some xpdb)
            pod
            ((remote fleet i told).expected +₃₂ (told (fleet.home i)).expected)
            ((remote fleet i told).healthy +₃₂ (told (fleet.home i)).healthy)
          ≡ ok true
        → Invariant fleet api holds revision server versions names lease_namespace namespace
            selector identity_of apart ahead cluster xpdb now store d
            (record w { pods = left; seen = put w.seen i (λ c. none) })
    evict-Invariant allowed = record {
      reached = inv.reached;
      told =
          put_elim
            (λ j o.
              (c : ℕ) (v : Counts)
              → o c ≡ some v
              → Told fleet api holds revision server versions names lease_namespace namespace
                  selector identity_of apart ahead cluster xpdb now store (record w { pods = left })
                  j c v)
            w.seen i (λ c. none) (λ c v e. cc)
            (λ j n c v e.
              let (past, fair) = inv.told j c v e in
              (
                past,
                λ t at'.
                    let (v_is, _) = fair t at' in
                    (
                      v_is,
                      λ fresh'. absurd (
                          n (
                            mutual_exclusion api holds revision server versions names
                              lease_namespace namespace selector identity_of apart ahead first_lease
                              inv.reached i j time t at at' fresh fresh')),
                    ),
              ));
      few = omega (arith, same_length, inv.few);
      wanted =
          disruption_allowed-keeps cluster xpdb pod (pos (total fleet.expected fleet.size)) d
            (total h fleet.size) (all_healthy fleet w.pods) (all_healthy fleet left) threshold
            (subst
              (λ (c : Counts).
                disruption_allowed cluster (some xpdb) pod c.expected c.healthy ≡ ok true)
              sums allowed)
            (omega (arith, seen_le, healthy_few, inv.few)) seen_le cost;
    }
