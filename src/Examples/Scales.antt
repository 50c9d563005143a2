-- ===== src/Examples/Scales.antt =====
-- Two pods of one StatefulSet.
use x_pdb.Prelude.{
  ◌≡◌, refl, sym, subst, ◌∙◌, some_inj, inl, inr, String, true, Option, none, some, List, [], ◌∷◌,
  msg, ok, err, ◌>>=◌,
}
use x_pdb.Prelude.Int.{pos, ◌+₃₂◌}
use x_pdb.Api.{OwnerReference, Pod}
use x_pdb.Scale.{
  get_pod_replication_controller, get_pod_deployment, get_pod_replica_set, get_pod_stateful_set,
  ask, finders, add_up, find_expected_scale,
}
use x_pdb.Workloads.{Reader}
use x_pdb.Scale.Total.{Among, Coherent, look_up_all, find_expected_scale_lem}
use x_pdb.Examples.{pod}

abbrev web : OwnerReference
web = record {
  api_version = "apps/v1";
  kind = "StatefulSet";
  name = "web";
  uid = "1";
  controller = some true;
}

abbrev pub owned : Pod
owned = record pod { owner_references = web ∷ [] }

abbrev first : List OwnerReference → Option OwnerReference
first [] = none
first (r ∷ rs) = some r

abbrev pub reader : Reader
reader = record {
  get_controller_of = first;
  parse_group_version = λ s. ok (record { group = "apps"; version = "v1" });
  get_replica_set = λ ns n. err (msg "not there");
  get_deployment = λ ns n. err (msg "not there");
  get_stateful_set = λ ns n.
      ok (record { uid = "1"; namespace = ns; owner_references = []; replicas = some (pos 3) });
  get_replication_controller = λ ns n. err (msg "not there");
  get_scale = λ gv k ns n. err (msg "not there");
  server_resources = λ gv. ok [];
}

the_only :
    (r : OwnerReference) (ns : String)
    → Among reader r ns (owned ∷ owned ∷ [])
    → (web ≡ r) × ("shop" ≡ ns)
the_only r ns (inl (e, f)) = (some_inj e, f)
the_only r ns (inr (inl (e, f))) = (some_inj e, f)
the_only r ns (inr (inr h)) = absurd h

coherent : Coherent reader (owned ∷ owned ∷ [])
coherent r s ns ms c a b e u =
    let (p, q) = the_only r ns a in
    let (p', q') = the_only s ms b in
    subst (λ m. ask reader (finders reader) s m ≡ ok (some c)) (sym q ∙ q')
      (subst (λ t. ask reader (finders reader) t ns ≡ ok (some c)) (sym p ∙ p') e)

find_expected_scale_lem_example :
    (find_expected_scale reader (owned ∷ owned ∷ [])).0
    ≡ (look_up_all reader (owned ∷ owned ∷ []) [] >>= λ scales. ok (add_up (pos 0) scales))
find_expected_scale_lem_example = find_expected_scale_lem reader (owned ∷ owned ∷ []) coherent

-- Three replicas are counted, once.
three : (find_expected_scale reader (owned ∷ owned ∷ [])).0 ≡ ok (pos 3)
unfolding find_expected_scale get_pod_replication_controller get_pod_deployment get_pod_replica_set
    get_pod_stateful_set ◌+₃₂◌
three = refl
