-- ===== src/Metrics.antt =====
-- internal/metrics/metrics.go: the counters of the webhook, by the values of their labels.
use x_pdb.Prelude.{
  ℕ, ◌+◌, String, Bool, true, false, ◌&&◌, List, [], ◌∷◌, ◌==◌, if◌then◌else◌, Result, ◌>>=◌,
}

abbrev pub Counter : Type 0
Counter = List String → ℕ

abbrev pub same_labels : List String → List String → Bool
same_labels [] [] = true
same_labels (x ∷ xs) (y ∷ ys) = x == y && same_labels xs ys
same_labels _ _ = false

-- `counter.WithLabelValues(values...).Inc()`
abbrev pub inc : List String → Counter → Counter
inc values counter k = if same_labels values k then counter k + 1 else counter k

pub record Metrics : Type 0 where
  pub eviction_rejected : Counter  -- namespace, resource, subresource, operation
  pub pod_matching_multiple_xpdbs : Counter  -- namespace
  pub lock_errors : Counter  -- namespace

unfoldable pub observe_eviction_rejected : String → String → String → String → Metrics → Metrics
observe_eviction_rejected namespace resource subresource operation m = record m {
  eviction_rejected = inc (namespace ∷ resource ∷ subresource ∷ operation ∷ []) m.eviction_rejected;
}

unfoldable pub observe_pod_matching_multiple_xpdbs : String → Metrics → Metrics
observe_pod_matching_multiple_xpdbs namespace m = record m {
  pod_matching_multiple_xpdbs = inc (namespace ∷ []) m.pod_matching_multiple_xpdbs;
}

unfoldable pub observe_lock_error : String → Metrics → Metrics
observe_lock_error namespace m = record m { lock_errors = inc (namespace ∷ []) m.lock_errors }

-- What is registered: a vector of counters, by its full name and its labels, or the metrics of the gRPC
-- clients, which their library makes.
pub data Collector : Type 0 where
  counter_vec : String → List String → Collector
  grpc_client_metrics : Collector

abbrev pub eviction_rejected_counter : Collector
eviction_rejected_counter =
    counter_vec "xpdb_pod_eviction_rejected"
      ("namespace" ∷ "resource" ∷ "subresource" ∷ "operation" ∷ [])

abbrev pub pod_matching_multiple_xpdbs_counter : Collector
pod_matching_multiple_xpdbs_counter =
    counter_vec "xpdb_pod_matches_multiple_xpdbs" ("namespace" ∷ [])

abbrev pub lock_errors_counter : Collector
lock_errors_counter = counter_vec "xpdb_lock_errors" ("namespace" ∷ [])

-- The function init, over MustRegister of the registry, which may panic.
unfoldable pub init : {R : Type 0} → (R → Collector → Result R) → R → Result R
init must_register r = must_register r pod_matching_multiple_xpdbs_counter >>= λ r.
    must_register r eviction_rejected_counter >>= λ r.
    must_register r lock_errors_counter >>= λ r. must_register r grpc_client_metrics
