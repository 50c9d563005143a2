-- ===== src/Pods.antt =====
-- internal/pdb/pod_utils.go, and countHealthyPods of internal/pdb/service.go.
pub mod Readiness
pub mod Healthy
use x_pdb.Prelude.{
  ℕ, ◌+◌, String, Bool, true, false, ◌&&◌, Option, none, some, List, [], ◌∷◌, ◌==◌, if◌then◌else◌,
}
use x_pdb.Prelude.Int.{ℤ, pos, negsuc, ◌+₃₂◌}
use x_pdb.Api.{Pod, PodStatus, PodCondition}

-- The loop of GetPodConditionFromList, from index `i` on. -1 is `negsuc 0`.
condition_from : ℕ → List PodCondition → String → ℤ × Option PodCondition
condition_from i [] condition_type = (negsuc 0, none)
condition_from i (c ∷ cs) condition_type =
    if c.type == condition_type then (pos i, some c) else condition_from (i + 1) cs condition_type

pub get_pod_condition_from_list : List PodCondition → String → ℤ × Option PodCondition
unfolding condition_from
get_pod_condition_from_list conditions condition_type = condition_from 0 conditions condition_type

pub get_pod_condition : Option PodStatus → String → ℤ × Option PodCondition
unfolding get_pod_condition_from_list
get_pod_condition none condition_type = (negsuc 0, none)
get_pod_condition (some status) condition_type =
    get_pod_condition_from_list status.conditions condition_type

pub get_pod_ready_condition : PodStatus → Option PodCondition
unfolding get_pod_condition
get_pod_ready_condition status = (get_pod_condition (some status) "Ready").1

abbrev condition_true : Option PodCondition → Bool
condition_true none = false
condition_true (some c) = c.status == "True"

pub is_pod_ready_condition_true : PodStatus → Bool
unfolding get_pod_ready_condition
is_pod_ready_condition_true status = condition_true (get_pod_ready_condition status)

unfoldable pub is_pod_ready : Pod → Bool
unfolding is_pod_ready_condition_true
is_pod_ready pod = is_pod_ready_condition_true pod.status

-- Is neither being deleted, nor not ready.
abbrev pub counts : Option ℕ → Bool → Bool
counts (some _) ready = false
counts none ready = ready

-- The loop of countHealthyPods, with the count so far.
count_from : ℤ → List Pod → ℤ
count_from current_healthy [] = current_healthy
count_from current_healthy (pod ∷ pods) =
    count_from
      (if counts pod.deletion_timestamp (is_pod_ready pod)
        then current_healthy +₃₂ pos 1
        else current_healthy)
      pods

unfoldable pub count_healthy_pods : List Pod → ℤ
unfolding count_from
count_healthy_pods pods = count_from (pos 0) pods
