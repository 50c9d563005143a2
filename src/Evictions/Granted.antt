-- ===== src/Evictions/Granted.antt =====
-- The verdict by which a pod goes is that of CanPodBeDisrupted of internal/pdb/service.go.
use x_pdb.Prelude.{
  ℕ, ◌≡◌, refl, sym, ap, subst, ◌∙◌, ok_inj, String, true, some, List, [], ◌∷◌, map, ok,
}
use x_pdb.Prelude.Int.{◌+₃₂◌}
use x_pdb.Api.{Pod, Xpdb}
use x_pdb.Proto.{GetStateRequest, GetStateResponse}
use x_pdb.Remote.{StateClients, ResultPool, IsResultPool, run_tasks}
use x_pdb.Pdb.{
  Cluster, Counts, no_counts, sum_counts, get_pod_counts, state_task, disruption_allowed,
  can_pod_be_disrupted,
}
use x_pdb.Pdb.FailClosed.{state_request}
use x_pdb.Pdb.Granted.{can_pod_be_disrupted-Room}
use x_pdb.Evictions.{Fleet, answer, remote}

map_ok_inj : (xs ys : List GetStateResponse) → map ok xs ≡ map ok ys → xs ≡ ys
map_ok_inj [] [] e = refl
map_ok_inj [] (y ∷ ys) e = cc
map_ok_inj (x ∷ xs) [] e = cc
map_ok_inj (x ∷ xs) (y ∷ ys) e = let rest = map_ok_inj xs ys (cc) in cc

module _ (cluster : Cluster) {W Client : Type 0} (clients : StateClients W Client)
    (pool : ResultPool) (cluster_of : String → ℕ) (told : ℕ → Counts) where
  all_told :
      (req : GetStateRequest)
      → ((w : W) (e : String)
          → (state_task cluster clients pool req w e).1 ≡ ok (answer (told (cluster_of e))))
      → (es : List String) (w : W)
      → (run_tasks (state_task cluster clients pool req) es w).1
        ≡ map ok (map (λ c. answer (told c)) (map cluster_of es))
  unfolding run_tasks
  all_told req tells [] w = refl
  all_told req tells (e ∷ es) w =
      let rest = all_told req tells es (state_task cluster clients pool req w e).0 in
      λ i. tells w e i ∷ rest i

  -- Where the controller of the request `i` has the other clusters as its endpoints, each of them tells it
  -- the counts `told` when it is asked, and it counts its own pods as it was told, then a disruption that
  -- CanPodBeDisrupted lets go is let go by these counts.
  pub granted :
      (law : IsResultPool pool) (fleet : Fleet) (i : ℕ) (endpoint : String)
      (endpoints schedule : List String) (w : W) (pod : Pod) (xpdb : Xpdb)
      → map cluster_of schedule ≡ fleet.others i
      → ((w : W) (e : String)
          → (state_task cluster clients pool
              (state_request cluster clients pool law endpoint endpoints schedule w xpdb.namespace
                xpdb.spec.selector)
              w
              e).1
            ≡ ok (answer (told (cluster_of e))))
      → get_pod_counts cluster xpdb.namespace xpdb.spec.selector ≡ ok (told (fleet.home i))
      → (can_pod_be_disrupted cluster clients pool (endpoint ∷ endpoints) schedule pod xpdb w).1
        ≡ ok true
      → disruption_allowed cluster
          (some xpdb)
          pod
          ((remote fleet i told).expected +₃₂ (told (fleet.home i)).expected)
          ((remote fleet i told).healthy +₃₂ (told (fleet.home i)).healthy)
        ≡ ok true
  granted law fleet i endpoint endpoints schedule w pod xpdb reached tells counted e =
      let req =
        state_request cluster clients pool law endpoint endpoints schedule w xpdb.namespace
          xpdb.spec.selector in
      let (xs, all, (here, locally, allowed)) =
        can_pod_be_disrupted-Room cluster clients pool law endpoint endpoints schedule w pod xpdb
          e in
      let same : xs ≡ map (λ c. answer (told c)) (fleet.others i) =
        map_ok_inj xs (map (λ c. answer (told c)) (map cluster_of schedule))
          (sym all ∙ all_told req tells schedule w)
        ∙ ap (map (λ c. answer (told c))) reached in
      let own : here ≡ told (fleet.home i) = ok_inj (sym locally ∙ counted) in
      subst
        (λ (p : List GetStateResponse × Counts).
          disruption_allowed cluster (some xpdb) pod
            ((sum_counts no_counts p.0).expected +₃₂ p.1.expected)
            ((sum_counts no_counts p.0).healthy +₃₂ p.1.healthy)
          ≡ ok true)
        (λ j. (same j, own j)) allowed
