-- ===== src/Scale/Finders.antt =====
-- Which finder answers for a controller.
use x_pdb.Prelude.{
  ◌≡◌, refl, sym, ap, ◌∙◌, ◌⊎◌, ◌≢◌, inl, inr, ◌↔◌, String, Bool, true, false, Option, some, none,
  List, [], ◌∷◌, ◌==◌, eq_iff, if◌then◌else◌, arith, Result, ok, err, fault, ◌>>=◌, >>=-eq-ok,
  Bool-cases, some_inj,
}
use x_pdb.Api.{OwnerReference}
use x_pdb.Scale.{
  contains, verify_group_kind, same_uid, get_pod_replication_controller, get_pod_stateful_set,
  unless_deployed, replica_set_scale, get_pod_replica_set, deployment_of, deployment_scale,
  get_pod_deployment, Finder,
}
use x_pdb.Workloads.{Reader, GroupVersion, Workload, ControllerAndScale}

distinct : {s a b : String} → s ≡ a → s ≡ b → (a == b) ≡ false → ⊥
distinct {s = s} {a = a} {b = b} p q n = let e = (eq_iff a b).1 (sym p ∙ q) in cc

abbrev pub In : String → List String → Type 0
In s [] = ⊥
In s (x ∷ xs) = (x ≡ s) ⊎ In s xs

contains_iff : (s : String) (xs : List String) → (contains s xs ≡ true) ↔ In s xs
contains_iff s [] = (λ h. cc, λ h. absurd h)
contains_iff s (x ∷ xs) = let rest = contains_iff s xs in ground (arith, eq_iff x s, rest)

module _ (reader : Reader) where
  open reader use {
    get_controller_of, parse_group_version, get_replica_set, get_deployment, get_stateful_set,
    get_replication_controller,
  }

  -- A reference is of the expected group and kind exactly if its version can be parsed, its kind is the
  -- expected one and its group is one of the expected ones.
  pub verify_group_kind_iff :
      (r : OwnerReference) (kind : String) (groups : List String)
      → (verify_group_kind reader r kind groups ≡ ok true) ↔ (
          (gv : GroupVersion) × (parse_group_version r.api_version ≡ ok gv)
          × (r.kind ≡ kind)
          × In gv.group groups)
  unfolding verify_group_kind
  verify_group_kind_iff r kind groups = (
    (λ e.
        let (gv, p, q) = >>=-eq-ok (parse_group_version r.api_version) _ e in
        (
          gv,
          p,
          ground (arith, eq_iff r.kind kind),
          (contains_iff gv.group groups).0 (ground (arith, eq_iff r.kind kind)),
        )),
    (λ (gv, p, k, m). ground (arith, p, k, m, eq_iff r.kind kind, contains_iff gv.group groups)),
  )

  gate :
      (m : Result Bool) (f : Result (Option ControllerAndScale)) (c : ControllerAndScale)
      → (m >>= λ right. if right then f else ok none) ≡ ok (some c)
      → (m ≡ ok true) × (f ≡ ok (some c))
  gate (ok true) f c e = (refl, e)
  gate (ok false) f c e = cc
  gate (err x) f c e = cc
  gate fault f c e = cc

  abbrev pub Answers : Finder → OwnerReference → String → Type 0
  Answers finder r ns = (c : ControllerAndScale) × (finder r ns ≡ ok (some c))

  kind_of :
      (r : OwnerReference) (kind : String) (groups : List String)
      → verify_group_kind reader r kind groups ≡ ok true
      → r.kind ≡ kind
  kind_of r kind groups e = ((verify_group_kind_iff r kind groups).0 e).2

  controller_kind :
      (r : OwnerReference) (ns : String)
      → Answers (get_pod_replication_controller reader) r ns
      → r.kind ≡ "ReplicationController"
  unfolding get_pod_replication_controller
  controller_kind r ns (c, e) =
      kind_of r "ReplicationController" ("" ∷ [])
        (gate (verify_group_kind reader r "ReplicationController" ("" ∷ []))
          (same_uid reader r (get_replication_controller ns r.name)) c e).0

  stateful_set_kind :
      (r : OwnerReference) (ns : String)
      → Answers (get_pod_stateful_set reader) r ns
      → r.kind ≡ "StatefulSet"
  unfolding get_pod_stateful_set
  stateful_set_kind r ns (c, e) =
      kind_of r "StatefulSet" ("apps" ∷ [])
        (gate (verify_group_kind reader r "StatefulSet" ("apps" ∷ []))
          (same_uid reader r (get_stateful_set ns r.name)) c e).0

  replica_set_kind :
      (r : OwnerReference) (ns : String)
      → Answers (get_pod_replica_set reader) r ns
      → r.kind ≡ "ReplicaSet"
  unfolding get_pod_replica_set
  replica_set_kind r ns (c, e) =
      kind_of r "ReplicaSet" ("apps" ∷ "extensions" ∷ [])
        (gate (verify_group_kind reader r "ReplicaSet" ("apps" ∷ "extensions" ∷ []))
          (replica_set_scale reader r (get_replica_set ns r.name)) c e).0

  deployment_kind :
      (r : OwnerReference) (ns : String)
      → Answers (get_pod_deployment reader) r ns
      → r.kind ≡ "ReplicaSet"
  unfolding get_pod_deployment
  deployment_kind r ns (c, e) =
      kind_of r "ReplicaSet" ("apps" ∷ "extensions" ∷ [])
        (gate (verify_group_kind reader r "ReplicaSet" ("apps" ∷ "extensions" ∷ []))
          (deployment_scale reader r (get_replica_set ns r.name)) c e).0

  replica_set_found :
      (r : OwnerReference) (ns : String) (c : ControllerAndScale)
      → get_pod_replica_set reader r ns ≡ ok (some c)
      → replica_set_scale reader r (get_replica_set ns r.name) ≡ ok (some c)
  unfolding get_pod_replica_set
  replica_set_found r ns c e =
      (gate (verify_group_kind reader r "ReplicaSet" ("apps" ∷ "extensions" ∷ []))
        (replica_set_scale reader r (get_replica_set ns r.name)) c e).1

  deployment_found :
      (r : OwnerReference) (ns : String) (c : ControllerAndScale)
      → get_pod_deployment reader r ns ≡ ok (some c)
      → deployment_scale reader r (get_replica_set ns r.name) ≡ ok (some c)
  unfolding get_pod_deployment
  deployment_found r ns c e =
      (gate (verify_group_kind reader r "ReplicaSet" ("apps" ∷ "extensions" ∷ []))
        (deployment_scale reader r (get_replica_set ns r.name)) c e).1

  -- The owner that `get_pod_deployment` finds is a Deployment.
  deployment_of-kind :
      (rs : Workload) (o : Option OwnerReference) (c : ControllerAndScale)
      → deployment_of reader rs o ≡ ok (some c)
      → (r : OwnerReference) × (o ≡ some r) × (r.kind ≡ "Deployment")
  unfolding deployment_of
  deployment_of-kind rs none c e = cc
  deployment_of-kind rs (some r) c e = (
    r,
    refl,
    kind_of r "Deployment" ("apps" ∷ "extensions" ∷ [])
        (gate (verify_group_kind reader r "Deployment" ("apps" ∷ "extensions" ∷ []))
          (same_uid reader r (get_deployment rs.namespace r.name)) c e).0,
  )

  not_counted :
      (rs : Workload) (o : Option OwnerReference) (r : OwnerReference) (d : ControllerAndScale)
      → o ≡ some r
      → r.kind ≡ "Deployment"
      → unless_deployed reader rs o ≢ ok (some d)
  unfolding unless_deployed
  not_counted rs none r d p k = cc
  not_counted rs (some q) r d p k =
      let e = ap (λ x. x.kind) (some_inj p) ∙ k in ground (arith, e, eq_iff q.kind "Deployment")

  -- A ReplicaSet that a Deployment controls is not counted itself.
  deployed_not_counted :
      (r : OwnerReference) (w : Result Workload) (c d : ControllerAndScale)
      → deployment_scale reader r w ≡ ok (some c)
      → replica_set_scale reader r w ≢ ok (some d)
  unfolding deployment_scale replica_set_scale
  deployed_not_counted r (ok rs) c d e = elim (Bool-cases (rs.uid == r.uid)) [
    | inl same ↦
        let (o, p, k) =
          deployment_of-kind rs (get_controller_of rs.owner_references) c (ground arith) in
        λ f. not_counted rs (get_controller_of rs.owner_references) o d p k (ground arith)
    | inr other ↦ λ f. ground arith
  ]
  deployed_not_counted r (err x) c d e = cc
  deployed_not_counted r fault c d e = cc

  -- Of the four finders of workloads at most one answers for a controller.
  pub finders_exclusive :
      (r : OwnerReference) (ns : String)
      → (Answers (get_pod_replication_controller reader) r ns
          → (¬ Answers (get_pod_deployment reader) r ns)
            × (¬ Answers (get_pod_replica_set reader) r ns)
            × (¬ Answers (get_pod_stateful_set reader) r ns))
        × (Answers (get_pod_deployment reader) r ns
            → (¬ Answers (get_pod_replica_set reader) r ns)
              × (¬ Answers (get_pod_stateful_set reader) r ns))
        × (Answers (get_pod_replica_set reader) r ns → ¬ Answers (get_pod_stateful_set reader) r ns)
  unfolding get_pod_deployment get_pod_replica_set
  finders_exclusive r ns = (
    (λ a. (
      (λ b. distinct (controller_kind r ns a) (deployment_kind r ns b) refl),
      (λ b. distinct (controller_kind r ns a) (replica_set_kind r ns b) refl),
      (λ b. distinct (controller_kind r ns a) (stateful_set_kind r ns b) refl),
    )),
    (λ (c, a). (
      (λ (d, b).
          deployed_not_counted r (get_replica_set ns r.name) c d (deployment_found r ns c a)
            (replica_set_found r ns d b)),
      (λ b. distinct (deployment_kind r ns (c, a)) (stateful_set_kind r ns b) refl),
    )),
    (λ a b. distinct (replica_set_kind r ns a) (stateful_set_kind r ns b) refl),
  )
