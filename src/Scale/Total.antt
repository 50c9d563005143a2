-- ===== src/Scale/Total.antt =====
-- The expected number of pods: skipping the controllers that are known changes nothing.
use x_pdb.Prelude.{
  ◌≡◌, refl, sym, ap, subst, ◌∙◌, ◌⊎◌, inl, inr, String, Option, none, some, ok_inj, List, [], ◌∷◌,
  ◌==◌, eq_iff, if◌then◌else◌, arith, Result, ok, err, fault, ◌>>=◌, >>=-eq-ok, Bool-cases,
  Option-cases,
}
use x_pdb.Prelude.Int.{ℤ, pos}
use x_pdb.Api.{OwnerReference, Pod}
use x_pdb.Scale.{
  lookup, insert, add_up, finders, ask, recorded, visit, note_unmanaged, find_from,
  find_expected_scale,
}
use x_pdb.Workloads.{Reader, ControllerAndScale}

abbrev Scales : Type 0
Scales = List (String × ℤ)

insert-lookup : (k : String) (v : ℤ) (m : Scales) → lookup k m ≡ some v → insert k v m ≡ m
insert-lookup k v [] h = cc
insert-lookup k v ((j, w) ∷ m) h = elim (Bool-cases (j == k)) [
  | inl same ↦
      let e = (eq_iff j k).0 same in
      let f : w ≡ v = ground arith in rw same (λ i. (sym e i, sym f i) ∷ m)
  | inr other ↦ rw other (ap (◌∷◌ (j, w)) (insert-lookup k v m (ground arith)))
]

lookup-insert :
    (j k : String) (v : ℤ) (m : Scales)
    → lookup j (insert k v m) ≡ (if k == j then some v else lookup j m)
lookup-insert j k v [] = refl
lookup-insert j k v ((i, w) ∷ m) =
    ground (arith, eq_iff i k, eq_iff i j, eq_iff k j, lookup-insert j k v m)

module _ (reader : Reader) where
  -- The controllers of the pods of a list, with their namespaces.
  abbrev pub Among : OwnerReference → String → List Pod → Type 0
  Among r ns [] = ⊥
  Among r ns (pod ∷ pods) =
      ((reader.get_controller_of pod.owner_references ≡ some r) × (pod.namespace ≡ ns))
      ⊎ Among r ns pods

  -- A UID stands for one controller: what is found under a UID for one pod is found for every pod whose
  -- controller has that UID.
  abbrev pub Coherent : List Pod → Type 0
  Coherent pods =
      (r s : OwnerReference) (ns ms : String) (c : ControllerAndScale)
      → Among r ns pods
      → Among s ms pods
      → ask reader (finders reader) r ns ≡ ok (some c)
      → c.uid ≡ s.uid
      → ask reader (finders reader) s ms ≡ ok (some c)

  abbrev note : List Pod → Scales → String → Option OwnerReference → Result Scales
  note pods m ns none = ok m
  note pods m ns (some r) = ask reader (finders reader) r ns >>= recorded reader m

  -- The map of scales with every controller looked up, also those that are known.
  pub look_up_all : List Pod → Scales → Result Scales
  look_up_all [] m = ok m
  look_up_all (pod ∷ pods) m =
      note pods m pod.namespace (reader.get_controller_of pod.owner_references) >>= look_up_all pods

  -- Each entry was found for one of the pods.
  abbrev Sound : List Pod → Scales → Type 0
  Sound pods m =
      (k : String) (v : ℤ)
      → lookup k m ≡ some v
      → (r : OwnerReference) × (ns : String) × Among r ns pods
        × (ask reader (finders reader) r ns ≡ ok (some (record { uid = k; scale = v })))

  entry-Sound :
      (pods : List Pod) (m : Scales) (r : OwnerReference) (ns : String) (c : ControllerAndScale)
      → Sound pods m
      → Among r ns pods
      → ask reader (finders reader) r ns ≡ ok (some c)
      → Sound pods (insert c.uid c.scale m)
  entry-Sound pods m r ns c sound at a k v h = elim (Bool-cases (c.uid == k)) [
    | inl same ↦
        let e = (eq_iff c.uid k).0 same in
        let f : c.scale ≡ v = ground (arith, lookup-insert k c.uid c.scale m) in
        (r, ns, at, a ∙ (λ i. ok (some (record { uid = e i; scale = f i }))))
    | inr other ↦ sound k v (ground (arith, lookup-insert k c.uid c.scale m))
  ]

  recorded-Sound :
      (pods : List Pod) (m n : Scales) (r : OwnerReference) (ns : String)
      → Sound pods m
      → Among r ns pods
      → (found : Option ControllerAndScale) → ask reader (finders reader) r ns ≡ ok found
      → recorded reader m found ≡ ok n
      → Sound pods n
  unfolding recorded
  recorded-Sound pods m n r ns sound at none a b = cc
  recorded-Sound pods m n r ns sound at (some c) a b =
      subst (Sound pods) (ok_inj b) (entry-Sound pods m r ns c sound at a)

  visit_lem :
      (pods : List Pod) (m : Scales) (r : OwnerReference) (ns : String)
      → Coherent pods
      → Sound pods m
      → Among r ns pods
      → visit reader ns (some r) m ≡ (ask reader (finders reader) r ns >>= recorded reader m)
  unfolding visit recorded
  visit_lem pods m r ns coherent sound at = elim (Option-cases (lookup r.uid m)) [
    | inl new ↦ rw (visit, new) refl
    | inr (v, known) ↦
        let (s, ms, among, found) = sound r.uid v known in
        rw
          (
            visit,
            known,
            coherent s r ms ns (record { uid = r.uid; scale = v }) among at found refl,
            insert-lookup r.uid v m known,
          )
          refl
  ]

  after :
      (pods : List Pod) (unmanaged : List String) (x : Result Scales)
      → ((n : Scales) → x ≡ ok n → (find_from reader pods n unmanaged).0 ≡ look_up_all pods n)
      → (elim x as (λ y. Result Scales × List String) [
        | ok scales ↦ find_from reader pods scales unmanaged
        | err e ↦ (err e, unmanaged)
        | fault ↦ (fault, unmanaged)
      ]).0
        ≡ (x >>= look_up_all pods)
  after pods unmanaged (ok n) h = h n refl
  after pods unmanaged (err e) h = refl
  after pods unmanaged fault h = refl

  visited :
      (all : List Pod) (m : Scales) (ns : String) (ref : Option OwnerReference)
      → Coherent all
      → Sound all m
      → ((r : OwnerReference) → ref ≡ some r → Among r ns all)
      → visit reader ns ref m ≡ note all m ns ref
  unfolding visit
  visited all m ns none coherent sound at = refl
  visited all m ns (some r) coherent sound at = visit_lem all m r ns coherent sound (at r refl)

  noted-Sound :
      (all : List Pod) (m n : Scales) (ns : String) (ref : Option OwnerReference)
      → Sound all m
      → ((r : OwnerReference) → ref ≡ some r → Among r ns all)
      → note all m ns ref ≡ ok n
      → Sound all n
  noted-Sound all m n ns none sound at e = subst (Sound all) (ok_inj e) sound
  noted-Sound all m n ns (some r) sound at e =
      let (found, a, b) = >>=-eq-ok (ask reader (finders reader) r ns) (recorded reader m) e in
      recorded-Sound all m n r ns sound (at r refl) found a b

  loop_lem :
      (all pods : List Pod) (m : Scales) (unmanaged : List String)
      → Coherent all
      → ((r : OwnerReference) (ns : String) → Among r ns pods → Among r ns all)
      → Sound all m
      → (find_from reader pods m unmanaged).0 ≡ look_up_all pods m
  unfolding find_from look_up_all
  loop_lem all [] m unmanaged coherent inside sound = refl
  loop_lem all (pod ∷ pods) m unmanaged coherent inside sound =
      let ref = reader.get_controller_of pod.owner_references in
      let at : (r : OwnerReference) → ref ≡ some r → Among r pod.namespace all =
        λ r e. inside r pod.namespace (inl (e, refl)) in
      let same = visited all m pod.namespace ref coherent sound at in
      after pods (note_unmanaged reader pod.name ref unmanaged) (visit reader pod.namespace ref m)
        (λ n e.
          loop_lem all pods n (note_unmanaged reader pod.name ref unmanaged) coherent
            (λ r ns a. inside r ns (inr a))
            (noted-Sound all m n pod.namespace ref sound at (sym same ∙ e)))
      ∙ ap (λ (x : Result Scales). x >>= look_up_all pods) same

  -- Where a UID stands for one controller, the expected number of pods is the sum of what the finders
  -- find for the controllers of the pods, each UID counted once; that the loop does not ask again for
  -- a controller that it knows makes no difference, also where a finder fails.
  pub find_expected_scale_lem :
      (pods : List Pod)
      → Coherent pods
      → (find_expected_scale reader pods).0
        ≡ (look_up_all pods [] >>= λ scales. ok (add_up (pos 0) scales))
  unfolding find_expected_scale
  find_expected_scale_lem pods coherent =
      ap (λ (x : Result Scales). x >>= λ scales. ok (add_up (pos 0) scales))
        (loop_lem pods pods [] [] coherent (λ r ns a. a) (λ k v h. cc))
