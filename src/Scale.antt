-- ===== src/Scale.antt =====
-- internal/pdb/scale.go: how many pods the controllers of given pods ask for. The service only reads,
-- so the API server is a record of answers, the same throughout one call.
pub mod Finders
pub mod Total
pub mod Sums
use Prim.Native.String.{len, slice}
use x_pdb.Prelude.{
  ◌-◌, String, Bool, true, false, ◌&&◌, ◌||◌, leb, Option, none, some, List, [], ◌∷◌, ◌++◌, ◌==◌,
  if◌then◌else◌, Error, msg, wrap, Result, ok, err, fault, ◌>>=◌,
}
use x_pdb.Prelude.Int.{ℤ, pos, ◌+₃₂◌, wrap32}
use x_pdb.Api.{OwnerReference, Pod}
use x_pdb.LeaseApi.{is_not_found}
use x_pdb.Workloads.{ControllerAndScale, GroupVersion, Workload, Scale, ApiResource, Reader}

-- strings.HasSuffix
has_suffix : String → String → Bool
has_suffix s suffix = leb (len suffix) (len s) && slice s (len s - len suffix) (len s) == suffix

abbrev pub contains : String → List String → Bool
contains s [] = false
contains s (x ∷ xs) = x == s || contains s xs

-- The scale under a key of the map of scales.
abbrev pub lookup : String → List (String × ℤ) → Option ℤ
lookup k [] = none
lookup k ((j, v) ∷ m) = if j == k then some v else lookup k m

abbrev pub insert : String → ℤ → List (String × ℤ) → List (String × ℤ)
insert k v [] = (k, v) ∷ []
insert k v ((j, w) ∷ m) = if j == k then (k, v) ∷ m else (j, w) ∷ insert k v m

-- The sum over the map, in the order of one iteration.
pub add_up : ℤ → List (String × ℤ) → ℤ
add_up expected_count [] = expected_count
add_up expected_count ((k, count) ∷ m) = add_up (expected_count +₃₂ count) m

-- `*(w.Spec.Replicas)`: a nil pointer panics.
pub scale_of : Workload → Option ℤ → Result (Option ControllerAndScale)
scale_of w none = fault
scale_of w (some n) = ok (some (record { uid = w.uid; scale = n }))

abbrev pub Finder : Type 0
Finder = OwnerReference → String → Result (Option ControllerAndScale)

module _ (reader : Reader) where
  open reader use {
    get_controller_of, parse_group_version, get_replica_set, get_deployment, get_stateful_set,
    get_replication_controller, get_scale, server_resources,
  }

  unfoldable pub verify_group_kind : OwnerReference → String → List String → Result Bool
  verify_group_kind controller_ref expected_kind expected_groups = do
    gv ← parse_group_version controller_ref.api_version
    ok (if controller_ref.kind == expected_kind then contains gv.group expected_groups else false)

  -- The object that was read stands for the controller if it has the UID of the reference. Every
  -- failure of a read counts as "not found".
  pub same_uid : OwnerReference → Result Workload → Result (Option ControllerAndScale)
  unfolding scale_of
  same_uid controller_ref (ok w) =
      if w.uid == controller_ref.uid then scale_of w w.replicas else ok none
  same_uid controller_ref (err e) = ok none
  same_uid controller_ref fault = fault

  unfoldable pub get_pod_replication_controller : Finder
  unfolding verify_group_kind same_uid
  get_pod_replication_controller controller_ref namespace = do
    right ← verify_group_kind controller_ref "ReplicationController" ("" ∷ [])
    if right
        then same_uid controller_ref (get_replication_controller namespace controller_ref.name)
        else ok none

  unfoldable pub get_pod_stateful_set : Finder
  unfolding verify_group_kind same_uid
  get_pod_stateful_set controller_ref namespace = do
    right ← verify_group_kind controller_ref "StatefulSet" ("apps" ∷ [])
    if right
        then same_uid controller_ref (get_stateful_set namespace controller_ref.name)
        else ok none

  -- A ReplicaSet that a Deployment controls is skipped.
  unless_deployed : Workload → Option OwnerReference → Result (Option ControllerAndScale)
  unfolding scale_of
  unless_deployed rs none = scale_of rs rs.replicas
  unless_deployed rs (some r) = if r.kind == "Deployment" then ok none else scale_of rs rs.replicas

  replica_set_scale : OwnerReference → Result Workload → Result (Option ControllerAndScale)
  unfolding unless_deployed
  replica_set_scale controller_ref (ok rs) =
      if rs.uid == controller_ref.uid
      then unless_deployed rs (get_controller_of rs.owner_references)
      else ok none
  replica_set_scale controller_ref (err e) = ok none
  replica_set_scale controller_ref fault = fault

  unfoldable pub get_pod_replica_set : Finder
  unfolding verify_group_kind replica_set_scale
  get_pod_replica_set controller_ref namespace = do
    right ← verify_group_kind controller_ref "ReplicaSet" ("apps" ∷ "extensions" ∷ [])
    if right
        then replica_set_scale controller_ref (get_replica_set namespace controller_ref.name)
        else ok none

  deployment_of : Workload → Option OwnerReference → Result (Option ControllerAndScale)
  unfolding verify_group_kind same_uid
  deployment_of rs none = ok none
  deployment_of rs (some r) = do
    right ← verify_group_kind r "Deployment" ("apps" ∷ "extensions" ∷ [])
    if right then same_uid r (get_deployment rs.namespace r.name) else ok none

  deployment_scale : OwnerReference → Result Workload → Result (Option ControllerAndScale)
  unfolding deployment_of
  deployment_scale controller_ref (ok rs) =
      if rs.uid == controller_ref.uid
      then deployment_of rs (get_controller_of rs.owner_references)
      else ok none
  deployment_scale controller_ref (err e) = ok none
  deployment_scale controller_ref fault = fault

  unfoldable pub get_pod_deployment : Finder
  unfolding verify_group_kind deployment_scale
  get_pod_deployment controller_ref namespace = do
    right ← verify_group_kind controller_ref "ReplicaSet" ("apps" ∷ "extensions" ∷ [])
    if right
        then deployment_scale controller_ref (get_replica_set namespace controller_ref.name)
        else ok none

  has_scale : String → List ApiResource → Bool
  has_scale kind [] = false
  has_scale kind (resource ∷ rs) =
      let rest = has_scale kind rs in
      if resource.kind == kind then has_suffix resource.name "/scale" || rest else rest

  pub implements_scale : GroupVersion → String → Result Bool
  unfolding has_scale has_suffix
  implements_scale gv kind = do
    resource_list ← server_resources gv
    ok (has_scale kind resource_list)

  found_scale : OwnerReference → Scale → Option ℤ → Result (Option ControllerAndScale)
  found_scale controller_ref scale none =
      err (msg "unable to find spec.replicas in scale subresource")
  found_scale controller_ref scale (some replicas) =
      ok (some (record { uid = scale.uid; scale = wrap32 replicas }))

  read_scale : OwnerReference → GroupVersion → Result Scale → Result (Option ControllerAndScale)
  unfolding found_scale implements_scale
  read_scale controller_ref gv (ok scale) =
      if scale.uid == controller_ref.uid
      then found_scale controller_ref scale scale.replicas
      else ok none
  read_scale controller_ref gv (err e) =
      if is_not_found e
      then (implements_scale gv controller_ref.kind >>= λ is_scale.
          if is_scale
          then ok none
          else err (msg "the kind does not implement the scale subresource"))
      else err (wrap "cannot get scale subresource" e)
  read_scale controller_ref gv fault = fault

  unfoldable pub get_scale_controller : Finder
  unfolding read_scale
  get_scale_controller controller_ref namespace = do
    gv ← parse_group_version controller_ref.api_version
    read_scale controller_ref gv (get_scale gv controller_ref.kind namespace controller_ref.name)

  -- The order in which the finders are asked.
  abbrev pub finders : List Finder
  finders =
      get_pod_replication_controller ∷ get_pod_deployment ∷ get_pod_replica_set
      ∷ get_pod_stateful_set ∷ get_scale_controller ∷ []

  -- The first finder that has an answer, and `none` where none has.
  pub ask : List Finder → Finder
  ask [] controller_ref namespace = ok none
  ask (finder ∷ fs) controller_ref namespace =
      let rest = ask fs controller_ref namespace in
      finder controller_ref namespace >>= λ found. elim found [ none ↦ rest | some c ↦ ok (some c) ]

  -- The map with what the finders found for a pod.
  pub recorded : List (String × ℤ) → Option ControllerAndScale → Result (List (String × ℤ))
  recorded controller_scale none = err (msg "found no controllers for pod")
  recorded controller_scale (some c) = ok (insert c.uid c.scale controller_scale)

  -- The body of the loop over the pods, after the test for a pod with no controller.
  pub visit : String → Option OwnerReference → List (String × ℤ) → Result (List (String × ℤ))
  unfolding ask recorded
  visit namespace none controller_scale = ok controller_scale
  visit namespace (some controller_ref) controller_scale =
      elim (lookup controller_ref.uid controller_scale) [
        | some _ ↦ ok controller_scale
        | none ↦ ask finders controller_ref namespace >>= recorded controller_scale
      ]

  abbrev pub note_unmanaged : String → Option OwnerReference → List String → List String
  note_unmanaged name none unmanaged_pods = unmanaged_pods ++ name ∷ []
  note_unmanaged name (some _) unmanaged_pods = unmanaged_pods

  -- The loop, with the map of scales and the names of the pods with no controller so far.
  pub find_from :
      List Pod → List (String × ℤ) → List String → Result (List (String × ℤ)) × List String
  unfolding visit
  find_from [] controller_scale unmanaged_pods = (ok controller_scale, unmanaged_pods)
  find_from (pod ∷ pods) controller_scale unmanaged_pods =
      let controller_ref = get_controller_of pod.owner_references in
      let unmanaged = note_unmanaged pod.name controller_ref unmanaged_pods in
      elim (visit pod.namespace controller_ref controller_scale) [
        | ok scales ↦ find_from pods scales unmanaged
        | err e ↦ (err e, unmanaged)
        | fault ↦ (fault, unmanaged)
      ]

  summed : Result (List (String × ℤ)) × List String → Result ℤ × List String
  unfolding add_up
  summed (r, unmanaged_pods) =
      (r >>= (λ controller_scale. ok (add_up (pos 0) controller_scale)), unmanaged_pods)

  unfoldable pub find_expected_scale : List Pod → Result ℤ × List String
  unfolding find_from summed
  find_expected_scale pods = summed (find_from pods [] [])
