-- ===== src/Api.antt =====
-- The objects that x-pdb reads and writes: those of api/v1alpha1/xpoddisruptionbudget_types.go, and
-- the fields that it uses of Kubernetes' own types. A pointer is an `Option`, a Go map an association
-- list in the order of one iteration over it, and a nil slice is an empty one.
use x_pdb.Prelude.{ℕ, String, Bool, Option, List}
use x_pdb.Prelude.Int.{ℤ}

-- A map from texts to texts.
abbrev pub Labels : Type 0
Labels = List (String × String)

-- metav1.OwnerReference
pub record OwnerReference : Type 0 where
  pub api_version : String
  pub kind : String
  pub name : String
  pub uid : String
  pub controller : Option Bool

-- corev1.PodCondition
pub record PodCondition : Type 0 where
  pub type : String
  pub status : String
  pub reason : String
  pub message : String

-- corev1.PodStatus
pub record PodStatus : Type 0 where
  pub conditions : List PodCondition
  pub reason : String

-- corev1.Pod. The map of annotations may be nil, and is written to: `none` is the nil map.
pub record Pod : Type 0 where
  pub name : String
  pub namespace : String
  pub labels : Labels
  pub annotations : Option Labels
  pub deletion_timestamp : Option ℕ
  pub owner_references : List OwnerReference
  pub status : PodStatus

-- intstr.IntOrString
pub data IntOrString : Type 0 where
  int : ℤ → IntOrString
  str : String → IntOrString

-- metav1.LabelSelectorRequirement
pub record LabelSelectorRequirement : Type 0 where
  pub key : String
  pub operator : String
  pub values : List String

-- metav1.LabelSelector
pub record LabelSelector : Type 0 where
  pub match_labels : Labels
  pub match_expressions : List LabelSelectorRequirement

-- XPodDisruptionBudgetProbeSpec
pub record XpdbProbeSpec : Type 0 where
  pub enabled : Option Bool
  pub endpoint : String

-- XPodDisruptionBudgetSpec
pub record XpdbSpec : Type 0 where
  pub suspend : Option Bool
  pub min_available : Option IntOrString
  pub selector : LabelSelector
  pub max_unavailable : Option IntOrString
  pub probe : Option XpdbProbeSpec

-- XPodDisruptionBudget
pub record Xpdb : Type 0 where
  pub name : String
  pub namespace : String
  pub spec : XpdbSpec
