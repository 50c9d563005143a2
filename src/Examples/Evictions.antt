-- ===== src/Examples/Evictions.antt =====
-- Two clusters with two pods each, of which one may be unavailable.
use mathlib.Core.List.{Perm, Permᴰ}
use mathlib.Core.List.Permᴰ
use x_pdb.Prelude.{put, ℕ, zero, suc, ◌<◌, ◌≡◌, refl, none, some, List, [], ◌∷◌, ok, arith}
use x_pdb.Prelude.Int.{pos, ◌+₃₂◌, ◌-₃₂◌, ◌≤ℤ◌}
use x_pdb.Api.{Pod}
use x_pdb.LeaseApi.Memory.{Memory, memory, held, memory-IsServer, memory-IsVersioned}
use x_pdb.Lease.{create_lease_name_for_selector}
use x_pdb.Lease.Keys.{same_key}
use x_pdb.Lock.Local.Race.{holding, advance}
use x_pdb.Lock.Local.Race.System.{System, act}
use x_pdb.Pods.{count_healthy_pods, is_pod_ready}
use x_pdb.Pods.Readiness.{healthy_pods}
use x_pdb.Pdb.{sum_counts, desired_healthy, disruption_allowed}
use x_pdb.Pdb.Disruptions.{marked}
use x_pdb.Evictions.{
  Fleet, World, first_world, below, total, counted, all_healthy, Step, Reach, race, count, evict,
  here, later,
}
use x_pdb.Evictions.Budget.{budget_kept}
use x_pdb.Examples.{names, selector, empty, pod, xpdb}
use x_pdb.Examples.Budgets.{cluster}
use x_pdb.Examples.Races.{identity_of, apart, regular, first, turn, ahead}

-- The request 0 comes from the cluster 0, all others from the cluster 1.
abbrev home : ℕ → ℕ
home zero = 0
home (suc i) = 1

abbrev others : ℕ → List ℕ
others zero = 1 ∷ []
others (suc i) = 0 ∷ []

everyone : (i : ℕ) → Perm (home i ∷ others i) (below 2)
everyone zero = ∣ Permᴰ.swap refl refl ∣₁
everyone (suc i) = ∣ Permᴰ.refl (1 ∷ 0 ∷ []) ∣₁

abbrev fleet : Fleet
fleet = record { size = 2; home = home; others = others; everyone = everyone; expected = λ c. 2 }

abbrev pods : ℕ → List Pod
pods c = pod ∷ pod ∷ []

abbrev Moves : World Memory → World Memory → Type 0
Moves =
    Step fleet memory held (λ m. m.revision) names "x-pdb" "shop" selector identity_of ahead cluster
      xpdb

abbrev begun : World Memory
begun = first_world 10_000_000 empty pods

abbrev with_system : System Memory → World Memory → World Memory
with_system s w = record w { system = s }

-- It obtains the lock,
abbrev locked : World Memory
locked = with_system (turn 0 (turn 0 first)) begun

is_holding : locked.system.pc 0 ≡ holding 10_000_000
unfolding advance memory same_key create_lease_name_for_selector
is_holding = refl

-- counts both clusters,
abbrev informed : ℕ → World Memory → World Memory
informed c w = record w { seen = put w.seen 0 (put (w.seen 0) c (some (counted fleet w.pods c))) }

abbrev both_told : World Memory
both_told = informed 1 (informed 0 locked)

-- and the second pod of its cluster goes.
abbrev one_gone : World Memory
one_gone = record both_told {
  pods = put both_told.pods 0 (pod ∷ marked 11 pod ∷ []);
  seen = put both_told.seen 0 (λ c. none);
}

told_all : (c : ℕ) → c < 2 → both_told.seen 0 c ≡ some (counted fleet pods c)
told_all zero h = refl
told_all (suc zero) h = refl
told_all (suc (suc c)) h = absurd (omega arith)

evicting : Moves both_told one_gone
unfolding advance memory same_key create_lease_name_for_selector disruption_allowed
    count_healthy_pods is_pod_ready ◌+₃₂◌ ◌-₃₂◌ sum_counts
evicting =
    evict 0 10_000_000 (counted fleet pods) (pod ∷ []) pod [] 11 refl (omega arith) told_all refl
      refl refl

reached :
    Reach fleet memory held
      (λ m. m.revision)
      names
      "x-pdb"
      "shop"
      selector
      identity_of
      ahead
      cluster
      xpdb
      begun
      one_gone
unfolding advance memory same_key create_lease_name_for_selector
reached =
    let got : Reach fleet memory held (λ m. m.revision) names "x-pdb" "shop" selector identity_of
        ahead cluster xpdb begun locked =
      later (later here (race (act 0 10_000_000 (omega arith) (λ t k e. cc))))
        (race (act 0 10_000_000 (omega arith) (λ t k e. cc))) in
    later
      (later (later got (count 0 0 10_000_000 refl (omega arith)))
        (count 0 1 10_000_000 refl (omega arith)))
      evicting

threshold :
    desired_healthy cluster xpdb.spec.max_unavailable xpdb.spec.min_available
      (pos (total fleet.expected fleet.size))
    ≡ ok (pos 3)
unfolding desired_healthy ◌-₃₂◌
threshold = refl

enough : pos 3 ≤ℤ pos (all_healthy fleet pods)
unfolding healthy_pods is_pod_ready
enough = omega arith

budget_kept_example : pos 3 ≤ℤ pos (all_healthy fleet one_gone.pods)
budget_kept_example =
    budget_kept fleet memory held (λ m. m.revision) memory-IsServer memory-IsVersioned names "x-pdb"
      "shop" selector identity_of apart ahead cluster xpdb 10_000_000 empty {pods = pods}
      (omega arith) (pos 3) threshold regular (omega arith) enough reached
