-- ===== src/Webhook/Handle.antt =====
-- PodValidationWebhook.Handle and the methods that it calls. Handle is cut at its early returns: each
-- function below is what follows one of them.
pub mod Admitted
pub mod Answers
pub mod Verdict
pub mod Locking
pub mod Effects
pub mod DryRun
use Prim.Native.String.{◌++◌ as ◌+++◌}
use x_pdb.Prelude.{
  ℕ, String, Bool, true, false, Option, none, some, List, [], ◌∷◌, map, if◌then◌else◌, Error, msg,
  wrap, Result, ok, err, fault,
}
use x_pdb.Api.{LabelSelector, Pod, Xpdb, XpdbProbeSpec}
use x_pdb.Metrics.{
  observe_eviction_rejected, observe_pod_matching_multiple_xpdbs, observe_lock_error,
}
use x_pdb.Webhook.{
  pending_activities_disruption_not_allowed_message, xpdb_disruption_budget_not_allowed_message,
  xpdb_disruption_budget_error_message, xpdb_disruption_probe_not_allowed_message,
  xpdb_disruption_probe_error_message, Request, Response, EventReason, invalid_configuration,
  blocked, accepted, Event, Config, Services, State, create_lease_holder_identity, join_names,
  get_disruption_target_condition, pod_has_node_lost_reason, Admission, admission_response,
}

-- A pointer to a Boolean that is set and true.
abbrev pub is_set : Option Bool → Bool
is_set none = false
is_set (some b) = b

-- A probe is asked unless it is missing or disabled.
abbrev pub is_enabled : Option XpdbProbeSpec → Bool
is_enabled none = false
is_enabled (some spec) = elim spec.enabled [ none ↦ true | some b ↦ b ]

-- A pod that is not ours to keep: being deleted, disrupted by Kubernetes, or on a lost node.
pub is_ignored : Pod → Bool
unfolding get_disruption_target_condition pod_has_node_lost_reason
is_ignored pod = elim pod.deletion_timestamp [
  | some _ ↦ true
  | none ↦ elim (get_disruption_target_condition pod.status.conditions) [
    | some _ ↦ true
    | none ↦ pod_has_node_lost_reason pod
  ]
]

pub decode_pod : {W : Type 0} → Services W → State W → Request → Result Pod
decode_pod services st request = elim request.old_object [
  | [] ↦ services.get_pod st.world request.namespace request.name
  | b ∷ bs ↦ services.decode_raw (b ∷ bs)
]

-- recorder.Eventf
pub record_event : {W : Type 0} → Event → State W → State W
record_event event st = record st { events = event ∷ st.events }

-- The event about the attempt to disrupt a pod.
abbrev pub about_pod : EventReason → Xpdb → Pod → Event
about_pod reason xpdb pod = record {
  about = xpdb.name;
  warning = false;
  reason = reason;
  note = "attempted eviction of " +++ pod.name;
}

module _ {W : Type 0} (services : Services W) (admission : Admission) (h : Config) where
  open services use {preactivities, get_xpdbs_for_pod, lock, unlock, budget, probe}

  pub respond : Bool → Option Error → Option ℕ → Response
  unfolding admission_response
  respond allowed message error_code = admission_response admission h allowed message error_code

  -- The answer after Unlock, whose error is logged only. A panic of Unlock is one of Handle.
  pub answered : Response → Result (Unit {0}) → Result Response
  answered response (ok u) = ok response
  answered response (err e) = ok response
  answered response fault = fault

  pub release : String → Xpdb → Response → State W → State W × Result Response
  unfolding answered
  release identity xpdb response st =
      let r = unlock st.world identity xpdb.namespace xpdb.spec.selector in
      (record st { world = r.0 }, answered response r.1)

  pub handle_error : Option Xpdb → String → Error → String → State W → State W × Result Response
  unfolding release respond
  handle_error none error_description e identity st =
      (st, ok (respond false (some (wrap error_description e)) none))
  handle_error (some xpdb) error_description e identity st =
      release identity xpdb (respond false (some (wrap error_description e)) none) st

  pub handle_not_allowed_disruption :
      Request → Option Xpdb → Pod → String → String → State W → State W × Result Response
  unfolding release respond record_event observe_eviction_rejected
  handle_not_allowed_disruption request none pod identity message st =
      (st, ok (respond false (some (msg message)) (some 429)))
  handle_not_allowed_disruption request (some xpdb) pod identity message st =
      let counted = record (record_event (about_pod blocked xpdb pod) st) {
        metrics =
            observe_eviction_rejected xpdb.namespace request.resource request.sub_resource
              request.operation st.metrics;
      } in
      release identity xpdb (respond false (some (msg message)) (some 429)) counted

  -- The end of Handle: the lock is kept, since the disruption is still to come.
  pub accept : Xpdb → Pod → State W → State W × Result Response
  unfolding record_event respond
  accept xpdb pod st = (record_event (about_pod accepted xpdb pod) st, ok (respond true none none))

  pub probed : Request → Xpdb → Pod → String → State W → Result Bool → State W × Result Response
  unfolding handle_error handle_not_allowed_disruption accept
  probed request xpdb pod identity st (ok true) = accept xpdb pod st
  probed request xpdb pod identity st (ok false) =
      handle_not_allowed_disruption request (some xpdb) pod identity
        xpdb_disruption_probe_not_allowed_message st
  probed request xpdb pod identity st (err e) =
      handle_error (some xpdb) xpdb_disruption_probe_error_message e identity st
  probed request xpdb pod identity st fault = (st, fault)

  pub check_probe : Request → Xpdb → Pod → String → State W → State W × Result Response
  unfolding probed
  check_probe request xpdb pod identity st =
      if is_enabled xpdb.spec.probe
      then (let r = probe st.world pod xpdb in
          probed request xpdb pod identity (record st { world = r.0 }) r.1)
      else accept xpdb pod st

  pub budgeted : Request → Xpdb → Pod → String → State W → Result Bool → State W × Result Response
  unfolding check_probe handle_error handle_not_allowed_disruption
  budgeted request xpdb pod identity st (ok true) = check_probe request xpdb pod identity st
  budgeted request xpdb pod identity st (ok false) =
      handle_not_allowed_disruption request (some xpdb) pod identity
        xpdb_disruption_budget_not_allowed_message st
  budgeted request xpdb pod identity st (err e) =
      handle_error (some xpdb) xpdb_disruption_budget_error_message e identity st
  budgeted request xpdb pod identity st fault = (st, fault)

  pub locked :
      Request → Xpdb → Pod → String → State W → Result (Unit {0}) → State W × Result Response
  unfolding budgeted observe_lock_error respond
  locked request xpdb pod identity st (ok u) =
      let r = budget st.world pod xpdb in
      budgeted request xpdb pod identity (record st { world = r.0 }) r.1
  locked request xpdb pod identity st (err e) = (
    record st { metrics = observe_lock_error pod.namespace st.metrics },
    ok (respond false (some (msg "Cannot disrupt pod because xpdb couldn't obtain lock")) none),
  )
  locked request xpdb pod identity st fault = (st, fault)

  pub guarded : Request → Xpdb → Pod → String → State W → State W × Result Response
  unfolding locked respond create_lease_holder_identity
  guarded request xpdb pod uuid st =
      let identity =
        create_lease_holder_identity h.cluster_id h.pod_id pod.namespace pod.name uuid in
      if is_set xpdb.spec.suspend
      then (st, ok (respond true none none))
      else (let r = lock st.world identity xpdb.namespace xpdb.spec.selector in
          locked request xpdb pod identity (record st { world = r.0 }) r.1)

  pub ambiguous : Pod → List Xpdb → State W → State W × Result Response
  unfolding record_event observe_pod_matching_multiple_xpdbs respond join_names
  ambiguous pod xpdbs st =
      let event : Event = record {
        about = pod.name;
        warning = true;
        reason = invalid_configuration;
        note =
            "invalid configuration: pod matches multiple XPDBs: "
            +++ join_names (map (λ x. x.name) xpdbs);
      } in
      (
        record (record_event event st) {
          metrics = observe_pod_matching_multiple_xpdbs pod.namespace st.metrics;
        },
        ok (
            respond false (some (msg "Cannot disrupt pod as it matched multiple xpdbs."))
              (some 500)),
      )

  pub selected : Request → Pod → String → State W → Result (List Xpdb) → State W × Result Response
  unfolding guarded ambiguous respond
  selected request pod uuid st (ok []) = (st, ok (respond true none none))
  selected request pod uuid st (ok (xpdb ∷ [])) = guarded request xpdb pod uuid st
  selected request pod uuid st (ok (x ∷ y ∷ xs)) = ambiguous pod (x ∷ y ∷ xs) st
  selected request pod uuid st (err e) =
      (st, ok (respond false (some (wrap "could not get xpdbs for pod" e)) none))
  selected request pod uuid st fault = (st, fault)

  -- The arguments of handleError are those of the source: the description of the error stands where
  -- the identity is expected, and the description is empty.
  pub prepared : Request → String → State W → Pod → Result Bool → State W × Result Response
  unfolding selected handle_error handle_not_allowed_disruption
  prepared request uuid st pod (ok true) =
      selected request pod uuid st (get_xpdbs_for_pod st.world pod)
  prepared request uuid st pod (ok false) =
      handle_not_allowed_disruption request none pod ""
        pending_activities_disruption_not_allowed_message st
  prepared request uuid st pod (err e) =
      handle_error none "" e "error verifying if pod had pending pre-activities" st
  prepared request uuid st pod fault = (st, fault)

  pub decoded : Request → String → State W → Result Pod → State W × Result Response
  unfolding is_ignored prepared respond
  decoded request uuid st (ok pod) =
      if is_ignored pod
      then (st, ok (respond true none none))
      else (let r = preactivities st.world pod in
          prepared request uuid (record st { world = r.0 }) r.1 r.2)
  decoded request uuid st (err e) = (st, ok (respond true none none))
  decoded request uuid st fault = (st, fault)

  -- `uuid` is the fresh UUID of the identity.
  unfoldable pub handle : Request → String → State W → State W × Result Response
  unfolding decoded decode_pod
  handle request uuid st = decoded request uuid st (decode_pod services st request)
