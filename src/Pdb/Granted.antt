-- ===== src/Pdb/Granted.antt =====
-- What is known where the budget service lets a pod go: every cluster was counted, by its own server.
use x_pdb.Prelude.{
  ◌≡◌, sym, subst, ◌∙◌, ok_inj, String, true, List, ◌∷◌, map, ok, ◌>>=◌, >>=-eq-ok, some,
}
use x_pdb.Prelude.Int.{◌+₃₂◌}
use x_pdb.Api.{Pod, Xpdb}
use x_pdb.Proto.{GetStateResponse}
use x_pdb.Remote.{StateClients, ResultPool, IsResultPool}
use x_pdb.Remote.Pool.{done_values}
use x_pdb.Pdb.{
  Cluster, Counts, no_counts, sum_counts, get_pod_counts, gathered, get_remote_pod_counts, decide,
  total, disruption_allowed, can_pod_be_disrupted,
}
use x_pdb.Pdb.FailClosed.{answers, sum_counts-perm}

module _ (cluster : Cluster) {W Client : Type 0} (clients : StateClients W Client)
    (pool : ResultPool) (law : IsResultPool pool) (endpoint : String)
    (endpoints schedule : List String) (w : W) where
  -- The pods of the other clusters and those of this one leave room for the disruption.
  abbrev pub Room : Pod → Xpdb → List GetStateResponse → Type 0
  Room pod xpdb xs =
      (here : Counts) × (get_pod_counts cluster xpdb.namespace xpdb.spec.selector ≡ ok here)
      × (disruption_allowed cluster (some xpdb) pod
            ((sum_counts no_counts xs).expected +₃₂ here.expected)
            ((sum_counts no_counts xs).healthy +₃₂ here.healthy)
          ≡ ok true)

  -- Where the budget service lets a pod go, every remote cluster has answered, the pods here were
  -- counted, and the sums over all clusters leave room for the disruption.
  pub can_pod_be_disrupted-Room :
      (pod : Pod) (xpdb : Xpdb)
      → (can_pod_be_disrupted cluster clients pool (endpoint ∷ endpoints) schedule pod xpdb w).1
        ≡ ok true
      → (xs : List GetStateResponse) × ((answers cluster clients pool law endpoint endpoints
            schedule w xpdb.namespace xpdb.spec.selector).1
          ≡ map ok xs)
        × Room pod xpdb xs
  unfolding can_pod_be_disrupted get_remote_pod_counts total gathered decide
  can_pod_be_disrupted-Room pod xpdb e =
      let rs =
        (answers cluster clients pool law endpoint endpoints schedule w xpdb.namespace
          xpdb.spec.selector).1 in
      let (there, known, rest) =
        >>=-eq-ok (pool.wait rs >>= λ results. ok (sum_counts no_counts results)) _ e in
      let (ys, done, sums) = >>=-eq-ok (pool.wait rs) _ known in
      let (xs, all, perm) = done_values pool law rs ys done in
      let (here, counted, allowed) =
        >>=-eq-ok (get_pod_counts cluster xpdb.namespace xpdb.spec.selector) _ rest in
      let same : there ≡ sum_counts no_counts xs =
        sym (ok_inj sums) ∙ sum_counts-perm no_counts ys xs perm in
      let fits =
        subst
          (λ (c : Counts).
            disruption_allowed cluster (some xpdb) pod (c.expected +₃₂ here.expected)
              (c.healthy +₃₂ here.healthy)
            ≡ ok true)
          same allowed in
      (xs, all, (here, counted, fits))
