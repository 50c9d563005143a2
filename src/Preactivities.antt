-- ===== src/Preactivities.antt =====
-- internal/preactivities/service.go. `update` is the client's Update of a pod, on the state of the
-- API server; a pod is changed in place, so the functions return it too.
use Prim.Native.String.{len, slice}
use text.Mathlib.Text.{find?, starts_with}
use x_pdb.Prelude.{
  ℕ, String, Bool, true, false, Option, none, some, List, [], ◌∷◌, ◌==◌, if◌then◌else◌, Error, msg,
  Result, ok, err, fault,
}
use x_pdb.Api.{Labels, Pod}
pub mod Verdict

abbrev pub pre_activity_annotation_name_prefix : String
pre_activity_annotation_name_prefix = "pre-activity.xpdb.form3.tech/"

abbrev pub has_pending_disruption_annotation_name : String
has_pending_disruption_annotation_name = "xpdb.form3.tech/has-pending-disruption"

-- strings.Contains
contains : String → String → Bool
contains s t = elim (find? s t) [ none ↦ false | some _ ↦ true ]

-- strings.TrimPrefix
trim_prefix : String → String → String
trim_prefix s t = if starts_with s t then slice s (len t) (len s) else s

-- The loop over the keys of the annotations.
pending_from : Labels → List String
unfolding contains trim_prefix
pending_from [] = []
pending_from ((k, v) ∷ m) =
    let rest = pending_from m in
    if contains k pre_activity_annotation_name_prefix
    then trim_prefix k pre_activity_annotation_name_prefix ∷ rest
    else rest

pub get_pending_preactivities : Option Labels → List String
unfolding pending_from
get_pending_preactivities none = []
get_pending_preactivities (some m) = pending_from m

-- Assignment to a key of a map.
unfoldable pub set_key : String → String → Labels → Labels
set_key k v [] = (k, v) ∷ []
set_key k v ((j, w) ∷ m) = if j == k then (k, v) ∷ m else (j, w) ∷ set_key k v m

module _ {ℓ} {W : Type ℓ} (update : W → Pod → W × Option Error) where
  updated : Pod → W × Option Error → W × Pod × Option Error
  updated pod (w, e) = (w, pod, e)

  -- Assignment to a key of the nil map panics: `none` stands for that.
  pub set_pending_disruption_annotation_on_pod : W → Pod → Option (W × Pod × Option Error)
  unfolding updated
  set_pending_disruption_annotation_on_pod w pod = elim pod.annotations [
    | none ↦ none
    | some m ↦
        let marked = record pod {
          annotations = some (set_key has_pending_disruption_annotation_name "true" m);
        } in
        some (updated marked (update w marked))
  ]

  refused : W → Pod → Option (W × Pod × Option Error) → W × Pod × Result Bool
  refused w pod none = (w, pod, fault)
  refused w pod (some (w', pod', none)) = (w', pod', ok false)
  refused w pod (some (w', pod', some e)) =
      (w', pod', err (msg "could not add pending disruption annotation to pod"))

  verdict : W → Pod → List String → W × Pod × Result Bool
  unfolding refused set_pending_disruption_annotation_on_pod
  verdict w pod [] = (w, pod, ok true)
  verdict w pod (_ ∷ _) = refused w pod (set_pending_disruption_annotation_on_pod w pod)

  unfoldable pub can_pod_be_disrupted : W → Pod → W × Pod × Result Bool
  unfolding verdict get_pending_preactivities
  can_pod_be_disrupted w pod = verdict w pod (get_pending_preactivities pod.annotations)
