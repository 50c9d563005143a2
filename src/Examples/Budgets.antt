-- ===== src/Examples/Budgets.antt =====
-- Budgets on concrete counts.
use mathlib.Core.List.{mem-cons_self}
use x_pdb.Prelude.{
  ◌+◌, ◌*◌, ◌-◌, ◌/◌, ◌≤◌, ◌≡◌, refl, ◌≢◌, ◌↔◌, true, String, none, some, [], ◌∷◌, arith, msg,
  Result, ok, err,
}
use x_pdb.Prelude.Int.{ℤ, pos, ◌+₃₂◌, ◌-₃₂◌}
use x_pdb.Api.{IntOrString, int, str, Xpdb}
use x_pdb.Proto.{GetStateResponse}
use x_pdb.Remote.{run_tasks, StateClients}
use x_pdb.Workloads.{Reader}
use x_pdb.Pdb.{state_task, Cluster, disruption_allowed, can_pod_be_disrupted}
use x_pdb.Pdb.Budget.{lost, max_unavailable_iff, min_available_iff, min_percent_iff}
use x_pdb.Pods.{count_healthy_pods, is_pod_ready}
use x_pdb.Pdb.Disruptions.{marked, Respected, Steps-Respected, Steps, none_yet, then_one, disrupt}
use x_pdb.Pods.Readiness.{healthy_pods}
use x_pdb.Pdb.FailClosed.{can_pod_be_disrupted-fails}
use x_pdb.Examples.{pod, xpdb, spec}
use x_pdb.Examples.Gather.{in_order, in_order-IsResultPool}

abbrev nothing : Reader
nothing = record {
  get_controller_of = λ rs. none;
  parse_group_version = λ s. err (msg "unexpected GroupVersion string");
  get_replica_set = λ ns n. err (msg "not there");
  get_deployment = λ ns n. err (msg "not there");
  get_stateful_set = λ ns n. err (msg "not there");
  get_replication_controller = λ ns n. err (msg "not there");
  get_scale = λ gv k ns n. err (msg "not there");
  server_resources = λ gv. ok [];
}

-- "50%" is the only percentage that is used here.
abbrev scaled : IntOrString → ℤ → Result ℤ
scaled (int z) total = ok z
scaled (str s) (pos n) = ok (pos ((50 * n + 99) / 100))
scaled (str s) total = err (msg "negative total")

abbrev pub cluster : Cluster
cluster = record {
  scales = nothing;
  list_pods = λ ns sel. ok (pod ∷ []);
  list_xpdbs = λ ns. ok (xpdb ∷ []);
  as_selector = λ s. ok (λ labels. true);
  scaled_value = λ v total round_up. scaled v total;
}

-- Of three expected pods three are healthy.
max_unavailable_iff_example :
    (disruption_allowed cluster (some xpdb) pod (pos 3) (pos 3) ≡ ok true) ↔ (3 + lost pod ≤ 3 + 1)
max_unavailable_iff_example =
    max_unavailable_iff cluster xpdb pod 3 3 (omega arith) (omega arith) (int (pos 1)) 1
      (omega arith) refl refl

abbrev at_least : IntOrString → Xpdb
at_least v = record xpdb { spec = record spec { min_available = some v; max_unavailable = none } }

min_available_iff_example :
    (disruption_allowed cluster (some (at_least (int (pos 3)))) pod (pos 3) (pos 3) ≡ ok true)
    ↔ (3 + lost pod ≤ 3)
min_available_iff_example =
    min_available_iff cluster (at_least (int (pos 3))) pod 3 3 (omega arith) (omega arith) 3
      (omega arith) refl refl

min_percent_iff_example :
    (disruption_allowed cluster (some (at_least (str "50%"))) pod (pos 5) (pos 4) ≡ ok true)
    ↔ (50 * 5 ≤ 100 * (4 - lost pod)) × (lost pod ≤ 4)
min_percent_iff_example =
    min_percent_iff cluster (at_least (str "50%")) pod 5 4 (omega arith) (omega arith) "50%" 50 refl
      (omega arith) refl refl

-- The other cluster answers, or does not.
abbrev answering : Result GetStateResponse → StateClients (Unit {0}) String
answering r = record {
  pool_get = λ w e. (w, ok e);
  lock = λ w c req. (w, err (msg "unavailable"));
  unlock = λ w c req. (w, err (msg "unavailable"));
  get_state = λ w c req. (w, r);
}

abbrev counted : GetStateResponse
counted = record { desired_healthy = pos 3; healthy = pos 2 }

can_pod_be_disrupted-fails_example :
    (can_pod_be_disrupted cluster
      (answering (err (msg "timeout")))
      in_order
      ("east" ∷ [])
      ("east" ∷ [])
      pod
      xpdb
      tt).1
    ≢ ok true
unfolding run_tasks state_task
can_pod_be_disrupted-fails_example =
    can_pod_be_disrupted-fails cluster (answering (err (msg "timeout"))) in_order
      in_order-IsResultPool "east" [] ("east" ∷ []) tt pod xpdb (msg "timeout") mem-cons_self true

-- Three pods are expected and there; the second is disrupted, which leaves no room for another.
one_gone : Steps cluster xpdb 3 (pod ∷ pod ∷ pod ∷ []) (pod ∷ marked 7 pod ∷ pod ∷ [])
unfolding disruption_allowed count_healthy_pods is_pod_ready ◌+₃₂◌ ◌-₃₂◌
one_gone = then_one none_yet (disrupt (pod ∷ []) pod (pod ∷ []) 7 refl refl)

all_there :
    Respected cluster xpdb 3
      (int (pos 1))
      1
      (omega arith)
      (omega arith)
      refl
      refl
      (pod ∷ pod ∷ pod ∷ [])
unfolding healthy_pods is_pod_ready
all_there = (omega arith, omega arith)

Steps-Respected_example :
    Respected cluster xpdb 3
      (int (pos 1))
      1
      (omega arith)
      (omega arith)
      refl
      refl
      (pod ∷ marked 7 pod ∷ pod ∷ [])
Steps-Respected_example =
    Steps-Respected cluster xpdb 3 (int (pos 1)) 1 (omega arith) (omega arith) refl refl one_gone
      all_there
