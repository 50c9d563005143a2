-- ===== src/Webhook.antt =====
-- internal/webhooks/validation.go: the admission webhook for the deletion and the eviction of pods.
-- The services that it calls are an interface, on the state `W` of the cluster.
pub mod Handle
pub mod Identity
use Prim.Native.String.{◌++◌ as ◌+++◌}
use x_pdb.Prelude.{
  ℕ, ◌≡◌, String, Bool, true, false, ◌&&◌, Option, none, some, List, [], ◌∷◌, ◌==◌, if◌then◌else◌,
  Error, msg, wrap, Result, ok, err, fault,
}
use x_pdb.Api.{LabelSelector, Pod, PodCondition, Xpdb, XpdbProbeSpec}
use x_pdb.Metrics.{
  Metrics, observe_eviction_rejected, observe_pod_matching_multiple_xpdbs, observe_lock_error,
}

abbrev pub node_unreachable_pod_reason : String
node_unreachable_pod_reason = "NodeLost"

abbrev pub pending_activities_disruption_not_allowed_message : String
pending_activities_disruption_not_allowed_message =
    "Cannot disrupt pod has it has pending disruption pre-activities."

abbrev pub xpdb_disruption_budget_not_allowed_message : String
xpdb_disruption_budget_not_allowed_message =
    "Cannot disrupt pod as it would violate the pod's xpdb disruption budget."

abbrev pub xpdb_disruption_budget_error_message : String
xpdb_disruption_budget_error_message =
    "Cannot disrupt pod as there was an error evaluating pod's xpdb disruption budget"

abbrev pub xpdb_disruption_probe_not_allowed_message : String
xpdb_disruption_probe_not_allowed_message =
    "Cannot disrupt pod as the pod's xpdb disruption probe didn't allow it."

abbrev pub xpdb_disruption_probe_error_message : String
xpdb_disruption_probe_error_message =
    "Cannot disrupt pod as there was an error calling pod's xpdb disruption probe"

-- admission.Request, as far as the webhook reads it.
pub record Request : Type 0 where
  pub old_object : List ℕ
  pub namespace : String
  pub name : String
  pub resource : String
  pub sub_resource : String
  pub operation : String

-- The verdict, the code of the result and its message; `none` is the empty message.
pub record Response : Type 0 where
  pub allowed : Bool
  pub code : ℕ
  pub message : Option Error

-- The reasons of events, api/v1alpha1/events.go.
pub data EventReason : Type 0 where
  invalid_configuration blocked accepted : EventReason

-- An event about a pod or an XPDB, by its name.
pub record Event : Type 0 where
  pub about : String
  pub warning : Bool
  pub reason : EventReason
  pub note : String

pub record Config : Type 0 where
  pub cluster_id : String
  pub pod_id : String
  pub dry_run : Bool

-- What the webhook calls: the decoder and the client of decodePod, and its four services.
pub record Services (W : Type 0) : Type 0 where
  pub decode_raw : List ℕ → Result Pod
  pub get_pod : W → String → String → Result Pod
  pub preactivities : W → Pod → W × Pod × Result Bool
  pub get_xpdbs_for_pod : W → Pod → Result (List Xpdb)
  pub lock : W → String → String → LabelSelector → W × Result (Unit {0})
  pub unlock : W → String → String → LabelSelector → W × Result (Unit {0})
  pub budget : W → Pod → Xpdb → W × Result Bool
  pub probe : W → Pod → Xpdb → W × Result Bool

-- The state of the cluster, the events so far, the newest first, and the counters.
pub record State (W : Type 0) : Type 0 where
  pub world : W
  pub events : List Event
  pub metrics : Metrics

-- lock.CreateLeaseHolderIdentity, with the fresh UUID.
infixr 65 ◌/◌
abbrev ◌/◌ : String → String → String
s / t = s +++ ("/" +++ t)

unfoldable pub create_lease_holder_identity : String → String → String → String → String → String
create_lease_holder_identity cluster_id xpdb_pod_id pod_namespace pod_name uuid =
    cluster_id / xpdb_pod_id / pod_namespace / pod_name / uuid

-- strings.Join
join_names : List String → String
join_names [] = ""
join_names (x ∷ []) = x
join_names (x ∷ y ∷ ys) = x +++ (", " +++ join_names (y ∷ ys))

unfoldable pub get_disruption_target_condition : List PodCondition → Option PodCondition
get_disruption_target_condition [] = none
get_disruption_target_condition (cond ∷ cs) =
    if cond.type == "DisruptionTarget" && cond.status == "True"
    then some cond
    else get_disruption_target_condition cs

unfoldable pub pod_has_node_lost_reason : Pod → Bool
pod_has_node_lost_reason pod = pod.status.reason == node_unreachable_pod_reason

-- The answers of controller-runtime's package admission.
pub record Admission : Type 0 where
  pub validation_response : Bool → Option Error → Response
  pub errored : ℕ → Option Error → Response

-- The response to deny or to admit a request, with the codes of HTTP.
pub record IsAdmission (admission : Admission) : Type 0 where
  pub admits :
      (m : Option Error)
      → admission.validation_response true m ≡ record { allowed = true; code = 200; message = m }
  pub denies :
      (m : Option Error)
      → admission.validation_response false m ≡ record { allowed = false; code = 403; message = m }
  pub fails :
      (code : ℕ) (m : Option Error)
      → admission.errored code m ≡ record { allowed = false; code = code; message = m }

unfoldable pub admission_response : Admission → Config → Bool → Option Error → Option ℕ → Response
admission_response admission h allowed message none = admission.validation_response allowed message
admission_response admission h allowed message (some error_code) =
    if h.dry_run
    then admission.validation_response allowed message
    else admission.errored error_code message
