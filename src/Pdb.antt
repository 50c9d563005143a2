-- ===== src/Pdb.antt =====
-- internal/pdb/service.go: whether the disruption budget lets a pod go.
pub mod Budget
pub mod FailClosed
pub mod Granted
pub mod Disruptions
use x_pdb.Prelude.{
  ℕ, String, Bool, true, false, Option, none, some, List, [], ◌∷◌, if◌then◌else◌, Error, Result, ok,
  err, fault, ◌>>=◌,
}
use x_pdb.Prelude.Int.{ℤ, pos, leb_ℤ, wrap32, ◌+₃₂◌, ◌-₃₂◌}
use x_pdb.Api.{Labels, LabelSelector, Pod, IntOrString, int, str, Xpdb, XpdbSpec}
use x_pdb.Proto.{GetStateRequest, GetStateResponse}
use x_pdb.Converters.{convert_label_selector_to_state}
use x_pdb.Pods.{is_pod_ready, count_healthy_pods}
use x_pdb.Scale.{find_expected_scale}
use x_pdb.Workloads.{Reader}
use x_pdb.ClientPool.{ClientPool}
use x_pdb.Remote.{StateClients, ResultPool, run_tasks, with_client}

-- The service's fields, less the logger, the API server's clients and the scale finder, which is made of
-- them.
pub record Service (Client : Type 0) : Type 0 where
  pub state_client_pool : ClientPool Client
  pub lease_namespace : String
  pub remote_endpoints : List String

abbrev pub new_service :
    {Client : Type 0} → ClientPool Client → String → List String → Service Client
new_service state_client_pool lease_namespace remote_endpoints = record {
  state_client_pool = state_client_pool;
  lease_namespace = lease_namespace;
  remote_endpoints = remote_endpoints;
}

-- What the service reads of the API server, and functions of apimachinery: a selector as a test of
-- labels (metav1.LabelSelectorAsSelector) and intstr.GetScaledValueFromIntOrPercent.
pub record Cluster : Type 0 where
  pub scales : Reader
  pub list_pods : String → (Labels → Bool) → Result (List Pod)
  pub list_xpdbs : String → Result (List Xpdb)
  pub as_selector : LabelSelector → Result (Labels → Bool)
  pub scaled_value : IntOrString → ℤ → Bool → Result ℤ

-- An expected and a healthy count.
pub record Counts : Type 0 where
  pub expected : ℤ
  pub healthy : ℤ

-- A pod that is not ready counts as healthy, so that it can be deleted.
pub healthy_compensation : Pod → ℤ
healthy_compensation pod = if is_pod_ready pod then pos 0 else pos 1

-- The sum over the responses.
unfoldable pub sum_counts : Counts → List GetStateResponse → Counts
sum_counts c [] = c
sum_counts c (res ∷ results) =
    sum_counts
      (record {
        expected = c.expected +₃₂ res.desired_healthy;
        healthy = c.healthy +₃₂ res.healthy;
      })
      results

abbrev pub no_counts : Counts
no_counts = record { expected = pos 0; healthy = pos 0 }

module _ (cluster : Cluster) where
  open cluster use {scales, list_pods, list_xpdbs, as_selector, scaled_value}

  pub get_pods_matching_selector : String → LabelSelector → Result (List Pod)
  get_pods_matching_selector namespace selector = do
    sel ← as_selector selector
    list_pods namespace sel

  unfoldable pub get_pod_counts : String → LabelSelector → Result Counts
  unfolding get_pods_matching_selector
  get_pod_counts namespace selector = do
    pods ← get_pods_matching_selector namespace selector
    expected_count ← (find_expected_scale scales pods).0
    ok (record { expected = expected_count; healthy = count_healthy_pods pods })

  -- The loop over the XPDBs of the namespace.
  pub matching : Labels → List Xpdb → Result (List Xpdb)
  matching labels [] = ok []
  matching labels (xpdb ∷ items) =
      let rest = matching labels items in
      as_selector xpdb.spec.selector >>= λ selector.
      if selector labels then (rest >>= λ xpdbs. ok (xpdb ∷ xpdbs)) else rest

  unfoldable pub get_xpdbs_for_pod : Pod → Result (List Xpdb)
  unfolding matching
  get_xpdbs_for_pod pod = do items ← list_xpdbs pod.namespace; matching pod.labels items

  -- The number of pods that must stay healthy.
  min_healthy : Option IntOrString → ℤ → Result ℤ
  min_healthy none expected_count = ok (pos 0)
  min_healthy (some (int n)) expected_count = ok n
  min_healthy (some (str s)) expected_count = do
    min_available ← scaled_value (str s) expected_count true
    ok (wrap32 min_available)

  unfoldable pub desired_healthy : Option IntOrString → Option IntOrString → ℤ → Result ℤ
  unfolding min_healthy
  desired_healthy (some m) min_available expected_count = do
    max_unavailable ← scaled_value m expected_count true
    ok (expected_count -₃₂ wrap32 max_unavailable)
  desired_healthy none min_available expected_count = min_healthy min_available expected_count

  unfoldable pub disruption_allowed : Option Xpdb → Pod → ℤ → ℤ → Result Bool
  unfolding desired_healthy healthy_compensation
  disruption_allowed none candidate_pod expected_count healthy_count = ok true
  disruption_allowed (some xpdb) candidate_pod expected_count healthy_count = do
    desired ← desired_healthy xpdb.spec.max_unavailable xpdb.spec.min_available expected_count
    ok (leb_ℤ desired (healthy_count +₃₂ healthy_compensation candidate_pod -₃₂ pos 1))

  module _ {W Client : Type 0} (clients : StateClients W Client) (pool : ResultPool) where
    unfoldable pub state_task : GetStateRequest → W → String → W × Result GetStateResponse
    unfolding with_client
    state_task req w e = with_client (λ w' cli. clients.get_state w' cli req) (clients.pool_get w e)

    gathered : W × List (Result GetStateResponse) → W × Result Counts
    unfolding sum_counts
    gathered (w, rs) = (w, pool.wait rs >>= λ results. ok (sum_counts no_counts results))

    -- `schedule` is the order in which the goroutines run; it holds the remote endpoints.
    unfoldable pub get_remote_pod_counts :
        List String → List String → String → LabelSelector → W → W × Result Counts
    unfolding state_task gathered run_tasks
    get_remote_pod_counts [] schedule namespace selector w = (w, ok no_counts)
    get_remote_pod_counts (_ ∷ _) schedule namespace selector w =
        let req : GetStateRequest = record {
          namespace = namespace;
          label_selector = convert_label_selector_to_state selector;
        } in
        gathered (run_tasks (state_task req) schedule w)

    -- The verdict from the counts of both sides.
    pub decide : Pod → Xpdb → Counts → Result Counts → Result Bool
    decide candidate_pod xpdb remote local = do
      here ← local
      disruption_allowed (some xpdb) candidate_pod (remote.expected +₃₂ here.expected)
          (remote.healthy +₃₂ here.healthy)

    total : Pod → Xpdb → W × Result Counts → W × Result Bool
    unfolding decide
    total candidate_pod xpdb (w, remote) = (
      w,
      remote >>= λ there.
          decide candidate_pod xpdb there (get_pod_counts xpdb.namespace xpdb.spec.selector),
    )

    unfoldable pub can_pod_be_disrupted :
        List String → List String → Pod → Xpdb → W → W × Result Bool
    unfolding total get_remote_pod_counts
    can_pod_be_disrupted remote_endpoints schedule candidate_pod xpdb w =
        total candidate_pod xpdb
          (get_remote_pod_counts remote_endpoints schedule xpdb.namespace xpdb.spec.selector w)
