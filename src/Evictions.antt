-- ===== src/Evictions.antt =====
-- The lock and the budget together: many requests of several clusters that lock one selector, count its
-- pods in every cluster and disrupt one. The lease is that of one API server, which every request locks.
pub mod Totals
pub mod Invariant
pub mod Disrupting
pub mod Budget
pub mod Granted
use mathlib.Core.List.{Perm}
use x_pdb.Prelude.{
  ℕ, zero, suc, ◌+◌, ◌^◌, ◌≤◌, ◌<◌, ◌≡◌, String, true, Option, none, some, List, [], ◌∷◌, ◌++◌, map,
  length, put, ok,
}
use x_pdb.Prelude.Int.{pos, ◌+₃₂◌}
use x_pdb.Api.{LabelSelector, Pod, Xpdb}
use x_pdb.Proto.{GetStateResponse}
use x_pdb.Lease.{Key, Lease, Naming}
use x_pdb.LeaseApi.{LeaseApi}
use x_pdb.Lock.Local.Race.{holding}
use x_pdb.Lock.Local.Race.System.{System, start}
use x_pdb.Lock.Local.Race.System as Race
use x_pdb.Lock.Local.Race.Facts.{lifetime}
use x_pdb.Lock.Local.Race.Exclusion.{Prompt}
use x_pdb.Pods.{count_healthy_pods}
use x_pdb.Pdb.{Cluster, Counts, no_counts, sum_counts, disruption_allowed}
use x_pdb.Pdb.Disruptions.{healthy, marked}

-- The numbers below `k`, and a sum over them.
abbrev pub below : ℕ → List ℕ
below zero = []
below (suc k) = k ∷ below k

abbrev pub total : (ℕ → ℕ) → ℕ → ℕ
total f zero = 0
total f (suc k) = f k + total f k

-- The clusters are numbered below `size`. A request comes from its home, and its controller has the
-- other clusters as endpoints, in the order in which their answers come in. Each cluster expects a number
-- of pods of the selector.
pub record Fleet : Type 0 where
  pub size : ℕ
  pub home : ℕ → ℕ
  pub others : ℕ → List ℕ
  pub everyone : (i : ℕ) → Perm (home i ∷ others i) (below size)
  pub expected : ℕ → ℕ

-- The requests and the leases, the pods of the selector in each cluster, and what each request has been
-- told of each cluster since it obtained the lock.
pub record World (Store : Type 0) : Type 0 where
  pub system : System Store
  pub pods : ℕ → List Pod
  pub seen : ℕ → ℕ → Option Counts

abbrev pub first_world : {Store : Type 0} → ℕ → Store → (ℕ → List Pod) → World Store
first_world now store pods = record { system = start now store; pods = pods; seen = λ i c. none }

-- The answer of a cluster's state server with these counts.
abbrev pub answer : Counts → GetStateResponse
answer c = record { desired_healthy = c.expected; healthy = c.healthy }

module _ (fleet : Fleet) where
  -- What GetPodCounts finds in a cluster.
  abbrev pub counted : (ℕ → List Pod) → ℕ → Counts
  counted pods c = record {
    expected = pos (fleet.expected c);
    healthy = count_healthy_pods (pods c);
  }

  -- All pods of the selector, and the healthy ones.
  abbrev pub all_pods : (ℕ → List Pod) → ℕ
  all_pods pods = total (λ c. length (pods c)) fleet.size

  abbrev pub all_healthy : (ℕ → List Pod) → ℕ
  all_healthy pods = total (λ c. healthy (pods c)) fleet.size

  -- The counts that the remote clusters told a request.
  abbrev pub remote : ℕ → (ℕ → Counts) → Counts
  remote i told = sum_counts no_counts (map (λ c. answer (told c)) (fleet.others i))

  module _ {Store : Type 0} (api : LeaseApi Store) (holds : Store → Key → Option Lease)
      (revision : Store → ℕ) (names : Naming) (lease_namespace namespace : String)
      (selector : LabelSelector) (identity_of : ℕ → String) (ahead : ℕ) (cluster : Cluster)
      (xpdb : Xpdb) where
    -- The leases or a request move on; a request that has the lock counts the pods of a cluster; a
    -- request that has the lock, before this runs out, is let go by the budget service by the counts of
    -- all clusters, as in Granted, and the pod of its own cluster is being deleted; or anything else happens to the
    -- pods of a cluster that leaves as many healthy.
    pub data Step (w : World Store) : World Store → Type 0 where
      race :
          {s : System Store}
          → Race.Step api holds revision names lease_namespace namespace selector identity_of ahead
              (Prompt ahead)
              w.system
              s
          → Step w (record w { system = s })
      count :
          (i c time : ℕ)
          → w.system.pc i ≡ holding time
          → c < fleet.size
          → Step w (record w { seen = put w.seen i (put (w.seen i) c (some (counted w.pods c))) })
      evict :
          (i time : ℕ) (told : ℕ → Counts) (before : List Pod) (pod : Pod) (after : List Pod)
          (deleted_at : ℕ)
          → w.system.pc i ≡ holding time
          → w.system.now + ahead < time + lifetime
          → ((c : ℕ) → c < fleet.size → w.seen i c ≡ some (told c))
          → disruption_allowed cluster
              (some xpdb)
              pod
              ((remote i told).expected +₃₂ (told (fleet.home i)).expected)
              ((remote i told).healthy +₃₂ (told (fleet.home i)).healthy)
            ≡ ok true
          → w.pods (fleet.home i) ≡ before ++ pod ∷ after
          → pod.deletion_timestamp ≡ none
          → Step w (record w {
            pods = put w.pods (fleet.home i) (before ++ marked deleted_at pod ∷ after);
            seen = put w.seen i (λ c. none);
          })
      recover :
          (c : ℕ) (pods : List Pod)
          → healthy (w.pods c) ≤ healthy pods
          → all_pods (put w.pods c pods) + 1 < 2 ^ 31
          → Step w (record w { pods = put w.pods c pods })

    pub data Reach (w : World Store) : World Store → Type 0 where
      here : Reach w w
      later : {u v : World Store} → Reach w u → Step u v → Reach w v
