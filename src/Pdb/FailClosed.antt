-- ===== src/Pdb/FailClosed.antt =====
-- The remote side of the decision: every cluster is counted, or there is no verdict.
use mathlib.Core.List.{Mem, Perm}
use x_pdb.Prelude.{
  ◌≡◌, refl, ◌≢◌, loop-swap, loop-perm, String, Bool, List, ◌∷◌, map, Error, Result, ◌>>=◌,
  >>=-eq-ok, ok, err,
}
use x_pdb.Prelude.Int.{◌+₃₂◌}
use x_pdb.Prelude.Int.Wrap.{ℤ-set, +₃₂-right_comm}
use x_pdb.Api.{LabelSelector, Pod, Xpdb}
use x_pdb.Proto.{GetStateRequest, GetStateResponse}
use x_pdb.Converters.{convert_label_selector_to_state}
use x_pdb.Remote.{StateClients, ResultPool, IsResultPool, run_tasks}
use x_pdb.Remote.Pool.{wait_fails, wait_gathers}
use x_pdb.Pdb.{
  Cluster, Counts, no_counts, sum_counts, state_task, gathered, get_remote_pod_counts,
  can_pod_be_disrupted,
}

Counts-set : IsSet Counts
Counts-set = hlevel ℤ-set

-- The counts with those of one more answer.
abbrev pub plus : Counts → GetStateResponse → Counts
plus c x = record { expected = c.expected +₃₂ x.desired_healthy; healthy = c.healthy +₃₂ x.healthy }

plus-right_comm : (c : Counts) (x y : GetStateResponse) → plus (plus c x) y ≡ plus (plus c y) x
plus-right_comm c x y i = record {
  expected = +₃₂-right_comm c.expected x.desired_healthy y.desired_healthy i;
  healthy = +₃₂-right_comm c.healthy x.healthy y.healthy i;
}

unrolled :
    (c : Counts) (x : GetStateResponse) (xs : List GetStateResponse)
    → sum_counts c (x ∷ xs) ≡ sum_counts (plus c x) xs
unfolding sum_counts
unrolled c x xs = refl

pub sum_counts-swap :
    (c : Counts) (x y : GetStateResponse) (zs : List GetStateResponse)
    → sum_counts c (x ∷ y ∷ zs) ≡ sum_counts c (y ∷ x ∷ zs)
sum_counts-swap = loop-swap Counts-set sum_counts plus unrolled plus-right_comm

pub sum_counts-perm :
    (c : Counts) (xs ys : List GetStateResponse) → Perm xs ys → sum_counts c xs ≡ sum_counts c ys
sum_counts-perm = loop-perm Counts-set sum_counts plus unrolled plus-right_comm

module _ (cluster : Cluster) {W Client : Type 0} (clients : StateClients W Client)
    (pool : ResultPool) (law : IsResultPool pool) (endpoint : String)
    (endpoints schedule : List String) (w : W) where
  -- What is asked of every remote cluster.
  abbrev pub state_request : String → LabelSelector → GetStateRequest
  state_request namespace selector = record {
    namespace = namespace;
    label_selector = convert_label_selector_to_state selector;
  }

  abbrev pub answers : String → LabelSelector → W × List (Result GetStateResponse)
  answers namespace selector =
      run_tasks (state_task cluster clients pool (state_request namespace selector)) schedule w

  -- Where every remote cluster answers, the remote counts are the sums over their answers, whatever
  -- the order in which these come in.
  pub get_remote_pod_counts_lem :
      (namespace : String) (selector : LabelSelector) (xs : List GetStateResponse)
      → (answers namespace selector).1 ≡ map ok xs
      → get_remote_pod_counts cluster clients pool
          (endpoint ∷ endpoints)
          schedule
          namespace
          selector
          w
        ≡ ((answers namespace selector).0, ok (sum_counts no_counts xs))
  unfolding get_remote_pod_counts
  get_remote_pod_counts_lem namespace selector xs e =
      let (ys, d, p) = wait_gathers pool law xs in
      rw (e, gathered, d)
        (λ i. ((answers namespace selector).0, ok (sum_counts-perm no_counts ys xs p i)))

  -- Where a remote cluster cannot be asked, or answers an error, there is no verdict: the disruption is
  -- not allowed.
  pub can_pod_be_disrupted-fails :
      (pod : Pod) (xpdb : Xpdb) (x : Error)
      → Mem (err x) (answers xpdb.namespace xpdb.spec.selector).1
      → (b : Bool)
      → (can_pod_be_disrupted cluster clients pool (endpoint ∷ endpoints) schedule pod xpdb w).1
        ≢ ok b
  unfolding can_pod_be_disrupted get_remote_pod_counts
  can_pod_be_disrupted-fails pod xpdb x m b e =
      let rs = (answers xpdb.namespace xpdb.spec.selector).1 in
      let (there, known, _) =
        >>=-eq-ok (pool.wait rs >>= λ results. ok (sum_counts no_counts results)) _ e in
      let (ys, done, _) = >>=-eq-ok (pool.wait rs) _ known in
      wait_fails pool law rs (err x) (λ a p. cc) m ys done
