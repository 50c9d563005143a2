-- ===== src/Evictions/Budget.antt =====
-- The budget holds, whatever the order in which requests of all clusters lock, count and disrupt.
use x_pdb.Prelude.{ℕ, ◌+◌, ◌^◌, ◌<◌, ◌≡◌, String, Option, ok, List}
use x_pdb.Prelude.Int.{ℤ, pos, ◌≤ℤ◌}
use x_pdb.Api.{LabelSelector, Pod, Xpdb}
use x_pdb.Lease.{Key, Lease, Naming}
use x_pdb.LeaseApi.{LeaseApi, IsServer, IsVersioned}
use x_pdb.Lock.Local.Safety.{lock_key}
use x_pdb.Lock.Local.Race.System.{System, start}
use x_pdb.Lock.Local.Race.System as Race
use x_pdb.Lock.Local.Race.Facts.{Regular}
use x_pdb.Pdb.{Cluster, desired_healthy}
use x_pdb.Evictions.{
  total, Fleet, World, first_world, all_pods, all_healthy, Step, race, count, evict, recover, Reach,
  here, later,
}
use x_pdb.Evictions.Invariant.{Invariant, race-Invariant, count-Invariant, recover-Invariant}
use x_pdb.Evictions.Disrupting.{evict-Invariant}

module _ (fleet : Fleet) {Store : Type 0} (api : LeaseApi Store)
    (holds : Store → Key → Option Lease) (revision : Store → ℕ) (server : IsServer api holds)
    (versions : IsVersioned api holds revision) (names : Naming)
    (lease_namespace namespace : String) (selector : LabelSelector) (identity_of : ℕ → String)
    (apart : (i j : ℕ) → identity_of i ≡ identity_of j → i ≡ j) (ahead : ℕ) (cluster : Cluster)
    (xpdb : Xpdb) (now : ℕ) (store : Store) where
  Step-Invariant :
      (d : ℤ)
      → total fleet.expected fleet.size < 2 ^ 31
      → desired_healthy cluster xpdb.spec.max_unavailable xpdb.spec.min_available
          (pos (total fleet.expected fleet.size))
        ≡ ok d
      → Regular holds revision (lock_key names lease_namespace namespace selector) store
      → {v w : World Store}
      → Step fleet api holds revision names lease_namespace namespace selector identity_of ahead
          cluster xpdb v w
      → Invariant fleet api holds revision server versions names lease_namespace namespace selector
          identity_of apart ahead cluster xpdb now store d v
      → Invariant fleet api holds revision server versions names lease_namespace namespace selector
          identity_of apart ahead cluster xpdb now store d w
  Step-Invariant d few threshold regular {v} (race {s} st) inv =
      race-Invariant fleet api holds revision server versions names lease_namespace namespace
        selector identity_of apart ahead cluster xpdb now store d v inv s st
  Step-Invariant d few threshold regular {v} (count i c time at inside) inv =
      count-Invariant fleet api holds revision server versions names lease_namespace namespace
        selector identity_of apart ahead cluster xpdb now store d v inv i c time at inside
  Step-Invariant d few threshold regular {v}
        (evict i time told before pod after t at fresh asked allowed there live) inv =
      evict-Invariant fleet api holds revision server versions names lease_namespace namespace
        selector identity_of apart ahead cluster xpdb now store d v inv few threshold regular i time
        told before pod after t at fresh asked there live allowed
  Step-Invariant d few threshold regular {v} (recover c pods more short) inv =
      recover-Invariant fleet api holds revision server versions names lease_namespace namespace
        selector identity_of apart ahead cluster xpdb now store d v inv c pods more short

  Reach-Invariant :
      {pods : ℕ → List Pod} {w : World Store} (d : ℤ)
      → total fleet.expected fleet.size < 2 ^ 31
      → desired_healthy cluster xpdb.spec.max_unavailable xpdb.spec.min_available
          (pos (total fleet.expected fleet.size))
        ≡ ok d
      → Regular holds revision (lock_key names lease_namespace namespace selector) store
      → all_pods fleet pods + 1 < 2 ^ 31
      → d ≤ℤ pos (all_healthy fleet pods)
      → Reach fleet api holds revision names lease_namespace namespace selector identity_of ahead
          cluster xpdb
          (first_world now store pods)
          w
      → Invariant fleet api holds revision server versions names lease_namespace namespace selector
          identity_of apart ahead cluster xpdb now store d w
  Reach-Invariant d few_expected threshold regular few enough here = record {
    reached = Race.here;
    told = λ i c v e. cc;
    few = few;
    wanted = enough;
  }
  Reach-Invariant d few_expected threshold regular few enough (later r st) =
      Step-Invariant d few_expected threshold regular st
        (Reach-Invariant d few_expected threshold regular few enough r)

  -- In every state that requests of several clusters reach, by locking one selector, counting its pods
  -- and disrupting them in any order, as many pods are healthy over all clusters as the budget wants, if
  -- it was so at first. This holds where a request disrupts a pod of its own cluster only while its lock
  -- is fresh, by the counts of all clusters that were taken under it, and nothing else costs a healthy
  -- pod; where the number of expected pods stays as it is, and these and all pods fit into an int32; and
  -- where requests have different identities, the server of leases keeps its laws, the first lease lasts
  -- five seconds, no clock is ahead by more than `ahead`, and every Delete runs before the lease of its
  -- own request has run out.
  pub budget_kept :
      {pods : ℕ → List Pod} {w : World Store}
      → total fleet.expected fleet.size < 2 ^ 31
      → (d : ℤ)
      → desired_healthy cluster xpdb.spec.max_unavailable xpdb.spec.min_available
          (pos (total fleet.expected fleet.size))
        ≡ ok d
      → Regular holds revision (lock_key names lease_namespace namespace selector) store
      → all_pods fleet pods + 1 < 2 ^ 31
      → d ≤ℤ pos (all_healthy fleet pods)
      → Reach fleet api holds revision names lease_namespace namespace selector identity_of ahead
          cluster xpdb
          (first_world now store pods)
          w
      → d ≤ℤ pos (all_healthy fleet w.pods)
  budget_kept few_expected d threshold first_lease few enough r =
      (Reach-Invariant d few_expected threshold first_lease few enough r).wanted
