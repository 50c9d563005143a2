-- ===== src/Preactivities/Verdict.antt =====
-- When a pod has pending pre-activities, and what the service does then.
use text.Mathlib.Text.{find?}
use x_pdb.Prelude.{
  ◌≡◌, refl, ◌≢◌, ◌⊎◌, inl, inr, String, Bool, true, false, Option, none, some, [], ◌∷◌, ◌==◌,
  if◌then◌else◌, eq_iff, arith, Error, msg, Result, ok, err, Option-cases,
}
use x_pdb.Api.{Labels, Pod}
use x_pdb.Preactivities.{
  pre_activity_annotation_name_prefix, has_pending_disruption_annotation_name, contains,
  pending_from, set_key, can_pod_be_disrupted,
}

-- The key names a pre-activity: the prefix stands somewhere in it.
abbrev pub IsPreactivity : String → Type 0
IsPreactivity k = find? k pre_activity_annotation_name_prefix ≢ none

abbrev pub NonePending : Labels → Type 0
NonePending [] = Unit
NonePending ((k, v) ∷ m) = (find? k pre_activity_annotation_name_prefix ≡ none) × NonePending m

abbrev pub SomePending : Labels → Type 0
SomePending [] = ⊥
SomePending ((k, v) ∷ m) = IsPreactivity k ⊎ SomePending m

abbrev lookup : String → Labels → Option String
lookup k [] = none
lookup k ((j, v) ∷ m) = if j == k then some v else lookup k m

-- Of the annotations, `set_key` changes the one key.
pub lookup-set_key :
    (k v j : String) (m : Labels)
    → lookup j (set_key k v m) ≡ (if k == j then some v else lookup j m)
unfolding set_key
lookup-set_key k v j [] = refl
lookup-set_key k v j ((i, w) ∷ m) =
    ground (arith, eq_iff k j, eq_iff i k, eq_iff i j, lookup-set_key k v j m)

pending_from_lem :
    (m : Labels) → (NonePending m × (pending_from m ≡ [])) ⊎ (SomePending m × (pending_from m ≢ []))
unfolding pending_from
pending_from_lem [] = inl (tt, refl)
pending_from_lem ((k, v) ∷ m) = elim (Option-cases (find? k pre_activity_annotation_name_prefix)) [
  | inl miss ↦ elim (pending_from_lem m) [
    | inl (n, e) ↦ inl ((miss, n), rw (miss, pending_from, contains) e)
    | inr (s, e) ↦ inr (inr s, rw (miss, pending_from, contains) e)
  ]
  | inr (i, hit) ↦ inr (inl (λ e. cc), rw (hit, pending_from, contains) (λ e. cc))
]

-- The annotations of a pod of which an activity is pending, none for the nil map.
abbrev pub Pending : Option Labels → Type 0
Pending none = ⊥
Pending (some m) = SomePending m

abbrev pub NotPending : Option Labels → Type 0
NotPending none = Unit
NotPending (some m) = NonePending m

abbrev mark : Option Labels → Option Labels
mark none = none
mark (some m) = some (set_key has_pending_disruption_annotation_name "true" m)

-- The pod with the annotation that asks its owner to get ready.
abbrev pub marked : Pod → Pod
marked pod = record pod { annotations = mark pod.annotations }

-- What the caller is told, by the result of the update.
abbrev pub answer : Option Error → Result Bool
answer none = ok false
answer (some e) = err (msg "could not add pending disruption annotation to pod")

module _ {ℓ} {W : Type ℓ} (update : W → Pod → W × Option Error) where
  -- A pod with no pending pre-activity may be disrupted, and nothing is written. A pod with one may
  -- not: the pod that is written carries the annotation and is else the same, and a failure of that
  -- write is an error. The nil map is never written to.
  pub can_pod_be_disrupted_lem :
      (w : W) (pod : Pod)
      → (NotPending pod.annotations × (can_pod_be_disrupted update w pod ≡ (w, pod, ok true)))
        ⊎ (Pending pod.annotations
            × (can_pod_be_disrupted update w pod
                ≡ ((update w (marked pod)).0, marked pod, answer (update w (marked pod)).1)))
  unfolding can_pod_be_disrupted
  can_pod_be_disrupted_lem w pod = elim (Option-cases pod.annotations) [
    | inl e ↦ inl (rw e tt, ground arith)
    | inr (m, e) ↦ elim (pending_from_lem m) [
      | inl (n, p) ↦ inl (rw e n, ground arith)
      | inr (s, p) ↦ inr (rw e s, ground arith)
    ]
  ]
