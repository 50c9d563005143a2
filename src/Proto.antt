-- ===== src/Proto.antt =====
-- The messages of the gRPC services: pkg/proto/state/v1/state.pb.go and
-- pkg/proto/disruptionprobe/v1/disruptionprobe.pb.go. The empty text of an `error` field is `none`,
-- and any other is the error that it prints.
use x_pdb.Prelude.{String, Bool, Option, List, Error}
use x_pdb.Prelude.Int.{ℤ}
use x_pdb.Api.{Labels}

pub record LabelSelectorRequirement : Type 0 where
  pub key : Option String
  pub operator : Option String
  pub values : List String

pub record LabelSelector : Type 0 where
  pub match_labels : Labels
  pub match_expressions : List LabelSelectorRequirement

pub record LockRequest : Type 0 where
  pub lease_holder_identity : String
  pub namespace : String
  pub label_selector : LabelSelector

pub record LockResponse : Type 0 where
  pub acquired : Bool
  pub error : Option Error

pub record UnlockRequest : Type 0 where
  pub lease_holder_identity : String
  pub namespace : String
  pub label_selector : LabelSelector

pub record UnlockResponse : Type 0 where
  pub unlocked : Bool
  pub error : Option Error

pub record GetStateRequest : Type 0 where
  pub namespace : String
  pub label_selector : LabelSelector

-- Both counts are of type int32.
pub record GetStateResponse : Type 0 where
  pub desired_healthy : ℤ
  pub healthy : ℤ

pub record IsDisruptionAllowedRequest : Type 0 where
  pub pod_name : String
  pub pod_namespace : String
  pub xpdb_name : String
  pub xpdb_namespace : String

pub record IsDisruptionAllowedResponse : Type 0 where
  pub is_allowed : Bool
  pub error : String
