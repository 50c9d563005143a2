-- ===== src/Workloads.antt =====
-- What internal/pdb/scale.go reads of the controllers of pods: the objects, and the calls that read them.
use x_pdb.Prelude.{String, Option, List, Result}
use x_pdb.Prelude.Int.{ℤ}
use x_pdb.Api.{OwnerReference}

-- controllerAndScale
pub record ControllerAndScale : Type 0 where
  pub uid : String
  pub scale : ℤ

-- schema.GroupVersion
pub record GroupVersion : Type 0 where
  pub group : String
  pub version : String

-- What is read of a ReplicaSet, a Deployment, a StatefulSet or a ReplicationController.
pub record Workload : Type 0 where
  pub uid : String
  pub namespace : String
  pub owner_references : List OwnerReference
  pub replicas : Option ℤ

-- The scale subresource: `replicas` is what NestedInt64 finds under spec.replicas.
pub record Scale : Type 0 where
  pub uid : String
  pub replicas : Option ℤ

-- metav1.APIResource
pub record ApiResource : Type 0 where
  pub name : String
  pub kind : String

-- The reads of the client and of the discovery client, and two functions of apimachinery,
-- metav1.GetControllerOf and schema.ParseGroupVersion. The reads take a namespace and a name.
pub record Reader : Type 0 where
  pub get_controller_of : List OwnerReference → Option OwnerReference
  pub parse_group_version : String → Result GroupVersion
  pub get_replica_set : String → String → Result Workload
  pub get_deployment : String → String → Result Workload
  pub get_stateful_set : String → String → Result Workload
  pub get_replication_controller : String → String → Result Workload
  pub get_scale : GroupVersion → String → String → String → Result Scale
  pub server_resources : GroupVersion → Result (List ApiResource)
