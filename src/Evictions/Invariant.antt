-- ===== src/Evictions/Invariant.antt =====
-- What holds of the requests and the pods in every state, and that counting, recovery and the steps of the
-- lock keep it.
use x_pdb.Prelude.{
  put, put_elim, ℕ, ◌+◌, ◌^◌, ◌≤◌, ◌<◌, ◌≡◌, refl, sym, subst, some_inj, String, Option, some,
  arith, List, length,
}
use x_pdb.Prelude.Int.{ℤ, pos, pos_part, ◌≤ℤ◌}
use x_pdb.Api.{LabelSelector, Pod, Xpdb}
use x_pdb.Lease.{Key, Lease, Naming}
use x_pdb.LeaseApi.{LeaseApi, IsServer, IsVersioned}
use x_pdb.Lock.Local.Race.{holding}
use x_pdb.Lock.Local.Race.System.{System, start}
use x_pdb.Lock.Local.Race.System as Race
use x_pdb.Lock.Local.Race.Facts.{lifetime}
use x_pdb.Lock.Local.Race.Exclusion.{Prompt}
use x_pdb.Lock.Local.Race.Onward.{Past, Step-Onward}
use x_pdb.Pods.Readiness.{count_healthy_pods_lem}
use x_pdb.Pdb.{Cluster, Counts}
use x_pdb.Pdb.Disruptions.{healthy}
use x_pdb.Evictions.{Fleet, World, counted, all_pods, all_healthy}
use x_pdb.Evictions.Totals.{total-le, le-total, both}

module _ (fleet : Fleet) {Store : Type 0} (api : LeaseApi Store)
    (holds : Store → Key → Option Lease) (revision : Store → ℕ) (server : IsServer api holds)
    (versions : IsVersioned api holds revision) (names : Naming)
    (lease_namespace namespace : String) (selector : LabelSelector) (identity_of : ℕ → String)
    (apart : (i j : ℕ) → identity_of i ≡ identity_of j → i ≡ j) (ahead : ℕ) (cluster : Cluster)
    (xpdb : Xpdb) (now : ℕ) (store : Store) where
  abbrev RaceReach : System Store → System Store → Type 0
  RaceReach =
      Race.Reach api holds revision names lease_namespace namespace selector identity_of ahead
        (Prompt ahead)

  -- The counts of a cluster as a request that holds the lock since `time` was told them: as long as the
  -- lock is fresh, at least as many pods are healthy.
  abbrev pub Fair : ℕ → (ℕ → List Pod) → ℕ → ℕ → Counts → Type 0
  Fair now pods time c v =
      (v ≡ both (fleet.expected c) (pos_part v.healthy))
      × (now + ahead < time + lifetime → pos_part v.healthy ≤ healthy (pods c))

  abbrev pub Told : World Store → ℕ → ℕ → Counts → Type 0
  Told w i c v =
      Past (w.system.pc i)
      × ((time : ℕ) → w.system.pc i ≡ holding time → Fair w.system.now w.pods time c v)

  -- What holds in every state that is reached. `d` is what the budget wants.
  pub record Invariant (d : ℤ) (w : World Store) : Type 0 where
    pub reached : RaceReach (start now store) w.system
    pub told : (i c : ℕ) (v : Counts) → w.seen i c ≡ some v → Told w i c v
    pub few : all_pods fleet w.pods + 1 < 2 ^ 31
    pub wanted : d ≤ℤ pos (all_healthy fleet w.pods)

  module _ (d : ℤ) (w : World Store) (inv : Invariant d w) where
    pub race-Invariant :
        (s : System Store)
        → Race.Step api holds revision names lease_namespace namespace selector identity_of ahead
            (Prompt ahead)
            w.system
            s
        → Invariant d (record w { system = s })
    race-Invariant s st =
        let (passed, onward) =
          Step-Onward api holds revision names lease_namespace namespace selector identity_of ahead
            st in
        record {
          reached = Race.later inv.reached st;
          told = λ i c v e.
              let (past, fair) = inv.told i c v e in
              let (past', same) = onward i past in
              (
                past',
                λ time at.
                    let (v_is, true_yet) = fair time (same time at) in
                    (v_is, λ fresh. true_yet (omega arith)),
              );
          few = inv.few;
          wanted = inv.wanted;
        }

    pub count-Invariant :
        (i c time : ℕ)
        → w.system.pc i ≡ holding time
        → c < fleet.size
        → Invariant d
            (record w { seen = put w.seen i (put (w.seen i) c (some (counted fleet w.pods c))) })
    count-Invariant i c time at inside = record {
      reached = inv.reached;
      told =
          put_elim (λ j told. (b : ℕ) (v : Counts) → told b ≡ some v → Told w j b v) w.seen i
            (put (w.seen i) c (some (counted fleet w.pods c)))
            (put_elim (λ b o. (v : Counts) → o ≡ some v → Told w i b v) (w.seen i) c
              (some (counted fleet w.pods c)) (λ v e. subst (Told w i c) (some_inj e) new)
              (λ b n. inv.told i b))
            (λ j n. inv.told j);
      few = inv.few;
      wanted = inv.wanted;
    }
      where
        short : length (w.pods c) < 2 ^ 31
        short = omega (arith, inv.few, le-total (λ b. length (w.pods b)) fleet.size c inside)

        new : Told w i c (counted fleet w.pods c)
        new =
            let exact = count_healthy_pods_lem (w.pods c) short in
            (subst Past (sym at) tt, λ t p. rw exact (refl, λ fresh. omega arith))

    pub recover-Invariant :
        (c : ℕ) (pods : List Pod)
        → healthy (w.pods c) ≤ healthy pods
        → all_pods fleet (put w.pods c pods) + 1 < 2 ^ 31
        → Invariant d (record w { pods = put w.pods c pods })
    recover-Invariant c pods more few = record {
      reached = inv.reached;
      told = λ i b v e.
          let (past, fair) = inv.told i b v e in
          (
            past,
            λ time at.
                let (v_is, true_yet) = fair time at in
                (v_is, λ fresh. omega (arith, true_yet fresh, rise b)),
          );
      few = few;
      wanted = omega (
        arith,
        inv.wanted,
        total-le (λ b. healthy (w.pods b)) (λ b. healthy (put w.pods c pods b)) fleet.size
            (λ b l. rise b),
      );
    }
      where
        rise : (b : ℕ) → healthy (w.pods b) ≤ healthy (put w.pods c pods b)
        rise =
            put_elim (λ b ps. healthy (w.pods b) ≤ healthy ps) w.pods c pods more
              (λ b n. omega arith)
