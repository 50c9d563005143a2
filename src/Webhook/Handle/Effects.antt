-- ===== src/Webhook/Handle/Effects.antt =====
-- The codes and the events of a request.
use x_pdb.Prelude.{
  ℕ, ◌≡◌, refl, ap, subst, ok_inj, ◌⊎◌, inl, inr, String, Bool, true, false, Option, some, none,
  List, [], ◌∷◌, arith, Error, msg, wrap, Result, ok, err, fault, Bool-cases,
}
use x_pdb.Api.{Pod, Xpdb}
use x_pdb.Webhook.{
  Request, Response, Event, EventReason, invalid_configuration, blocked, accepted, Config, Services,
  State, Admission, IsAdmission,
}
use x_pdb.Webhook.Handle.Admitted.{identity_of}
use x_pdb.Webhook.Handle.Answers.{answered-ok, respond_denies, respond_admits}
use x_pdb.Webhook.Handle.{
  is_set, is_enabled, decode_pod, is_ignored, answered, release, respond, handle_error,
  handle_not_allowed_disruption, accept, probed, check_probe, budgeted, locked, guarded, ambiguous,
  selected, prepared, decoded, handle,
}

-- The code is 200 for a request that is admitted and 403 for one that is not, or 429 or 500 outside
-- dry-run mode.
abbrev pub IsCoded : Config → Response → Type 0
IsCoded h r =
    ((r.allowed ≡ true) × (r.code ≡ 200))
    ⊎ ((r.allowed ≡ false)
        × ((r.code ≡ 403) ⊎ ((h.dry_run ≡ false) × ((r.code ≡ 429) ⊎ (r.code ≡ 500)))))

-- What an event says of the verdict.
abbrev pub Tells : EventReason → Bool → Type 0
Tells accepted allowed = allowed ≡ true
Tells blocked allowed = allowed ≡ false
Tells invalid_configuration allowed = allowed ≡ false

-- There is no event, or one that tells the verdict.
abbrev pub IsTold : List Event → List Event → Response → Type 0
IsTold before after r =
    (after ≡ before) ⊎ ((e : Event) × (after ≡ e ∷ before) × Tells e.reason r.allowed)

module _ {W : Type 0} (services : Services W) (h : Config) (admission : Admission)
    (law : IsAdmission admission) where
  abbrev Says : List Event → List Event → Result Response → Type 0
  Says before after x = (r : Response) → x ≡ ok r → IsCoded h r × IsTold before after r

  abbrev Good : List Event → State W × Result Response → Type 0
  Good before x = Says before x.0.events x.1

  denies-IsCoded : (m : Option Error) → IsCoded h (respond services admission h false m none)
  unfolding respond
  denies-IsCoded m = ground (arith, law.denies m)

  fails-IsCoded :
      (m : Option Error) (c : ℕ)
      → (c ≡ 429) ⊎ (c ≡ 500)
      → IsCoded h (respond services admission h false m (some c))
  unfolding respond
  fails-IsCoded m c p = ground (arith, law.denies m, law.fails c m)

  admits-IsCoded : IsCoded h (respond services admission h true none none)
  unfolding respond
  admits-IsCoded = ground (arith, law.admits none)

  quiet : (v : Response) → IsCoded h v → (before : List Event) → Says before before (ok v)
  quiet v c before r p = (subst (IsCoded h) (ok_inj p) c, inl refl)

  quiet_after :
      (v : Response)
      → IsCoded h v
      → (before : List Event) (x : Result (Unit {0}))
      → Says before before (answered services admission h v x)
  quiet_after v c before x r p =
      quiet v c before r (ap ok (answered-ok services h admission law v r x p))

  told :
      (v : Response)
      → IsCoded h v
      → (before : List Event) (e : Event) → Tells e.reason v.allowed
      → Says before (e ∷ before) (ok v)
  told v c before e t r p = (
    subst (IsCoded h) (ok_inj p) c,
    inr (e, refl, subst (λ (q : Response). Tells e.reason q.allowed) (ok_inj p) t),
  )

  told_after :
      (v : Response)
      → IsCoded h v
      → (before : List Event) (e : Event) → Tells e.reason v.allowed
      → (x : Result (Unit {0})) → Says before (e ∷ before) (answered services admission h v x)
  told_after v c before e t x r p =
      told v c before e t r (ap ok (answered-ok services h admission law v r x p))

  handle_error-Good :
      (x : Option Xpdb) (d : String) (e : Error) (identity : String) (st : State W)
      → Good st.events (handle_error services admission h x d e identity st)
  unfolding handle_error release
  handle_error-Good none d e identity st = quiet _ (denies-IsCoded (some (wrap d e))) st.events
  handle_error-Good (some x) d e identity st =
      quiet_after _ (denies-IsCoded (some (wrap d e))) st.events _

  not_allowed-Good :
      (request : Request) (x : Option Xpdb) (pod : Pod) (identity m : String) (st : State W)
      → Good st.events
          (handle_not_allowed_disruption services admission h request x pod identity m st)
  unfolding handle_not_allowed_disruption release
  not_allowed-Good request none pod identity m st =
      quiet _ (fails-IsCoded (some (msg m)) 429 (inl refl)) st.events
  not_allowed-Good request (some x) pod identity m st =
      told_after _ (fails-IsCoded (some (msg m)) 429 (inl refl)) st.events _
        (respond_denies services h admission law (some (msg m)) (some 429)) _

  accept-Good :
      (xpdb : Xpdb) (pod : Pod) (st : State W)
      → Good st.events (accept services admission h xpdb pod st)
  unfolding accept
  accept-Good xpdb pod st =
      told _ admits-IsCoded st.events _ (respond_admits services h admission law)

  probed-Good :
      (request : Request) (xpdb : Xpdb) (pod : Pod) (identity : String) (st : State W)
      (v : Result Bool)
      → Good st.events (probed services admission h request xpdb pod identity st v)
  unfolding probed
  probed-Good request xpdb pod identity st (ok true) = accept-Good xpdb pod st
  probed-Good request xpdb pod identity st (ok false) =
      not_allowed-Good request (some xpdb) pod identity _ st
  probed-Good request xpdb pod identity st (err e) = handle_error-Good (some xpdb) _ e identity st
  probed-Good request xpdb pod identity st fault = λ r p. cc

  check_probe-Good :
      (request : Request) (xpdb : Xpdb) (pod : Pod) (identity : String) (st : State W)
      → Good st.events (check_probe services admission h request xpdb pod identity st)
  unfolding check_probe
  check_probe-Good request xpdb pod identity st = elim (Bool-cases (is_enabled xpdb.spec.probe)) [
    | inl on ↦ rw on (
        probed-Good request xpdb pod identity
          (record st { world = (services.probe st.world pod xpdb).0 })
          (services.probe st.world pod xpdb).1)
    | inr off ↦ rw off (accept-Good xpdb pod st)
  ]

  budgeted-Good :
      (request : Request) (xpdb : Xpdb) (pod : Pod) (identity : String) (st : State W)
      (v : Result Bool)
      → Good st.events (budgeted services admission h request xpdb pod identity st v)
  unfolding budgeted
  budgeted-Good request xpdb pod identity st (ok true) =
      check_probe-Good request xpdb pod identity st
  budgeted-Good request xpdb pod identity st (ok false) =
      not_allowed-Good request (some xpdb) pod identity _ st
  budgeted-Good request xpdb pod identity st (err e) = handle_error-Good (some xpdb) _ e identity st
  budgeted-Good request xpdb pod identity st fault = λ r p. cc

  locked-Good :
      (request : Request) (xpdb : Xpdb) (pod : Pod) (identity : String) (st : State W)
      (v : Result (Unit {0}))
      → Good st.events (locked services admission h request xpdb pod identity st v)
  unfolding locked
  locked-Good request xpdb pod identity st (ok u) =
      budgeted-Good request xpdb pod identity
        (record st { world = (services.budget st.world pod xpdb).0 })
        (services.budget st.world pod xpdb).1
  locked-Good request xpdb pod identity st (err e) = quiet _ (denies-IsCoded _) st.events
  locked-Good request xpdb pod identity st fault = λ r p. cc

  guarded-Good :
      (request : Request) (xpdb : Xpdb) (pod : Pod) (uuid : String) (st : State W)
      → Good st.events (guarded services admission h request xpdb pod uuid st)
  unfolding guarded
  guarded-Good request xpdb pod uuid st = elim (Bool-cases (is_set xpdb.spec.suspend)) [
    | inl on ↦ rw on (quiet _ admits-IsCoded st.events)
    | inr off ↦ rw off (
        let l =
          services.lock st.world (identity_of services h pod uuid) xpdb.namespace
            xpdb.spec.selector in
        locked-Good request xpdb pod (identity_of services h pod uuid) (record st { world = l.0 })
          l.1)
  ]

  selected-Good :
      (request : Request) (pod : Pod) (uuid : String) (st : State W) (v : Result (List Xpdb))
      → Good st.events (selected services admission h request pod uuid st v)
  unfolding selected ambiguous
  selected-Good request pod uuid st (ok []) = quiet _ admits-IsCoded st.events
  selected-Good request pod uuid st (ok (x ∷ [])) = guarded-Good request x pod uuid st
  selected-Good request pod uuid st (ok (x ∷ y ∷ xs)) =
      told _ (fails-IsCoded _ 500 (inr refl)) st.events _
        (respond_denies services h admission law _ (some 500))
  selected-Good request pod uuid st (err e) = quiet _ (denies-IsCoded _) st.events
  selected-Good request pod uuid st fault = λ r p. cc

  prepared-Good :
      (request : Request) (uuid : String) (st : State W) (pod : Pod) (v : Result Bool)
      → Good st.events (prepared services admission h request uuid st pod v)
  unfolding prepared
  prepared-Good request uuid st pod (ok true) =
      selected-Good request pod uuid st (services.get_xpdbs_for_pod st.world pod)
  prepared-Good request uuid st pod (ok false) = not_allowed-Good request none pod "" _ st
  prepared-Good request uuid st pod (err e) =
      handle_error-Good none "" e "error verifying if pod had pending pre-activities" st
  prepared-Good request uuid st pod fault = λ r p. cc

  decoded-Good :
      (request : Request) (uuid : String) (st : State W) (v : Result Pod)
      → Good st.events (decoded services admission h request uuid st v)
  unfolding decoded
  decoded-Good request uuid st (ok pod) = elim (Bool-cases (is_ignored pod)) [
    | inl on ↦ rw on (quiet _ admits-IsCoded st.events)
    | inr off ↦ rw off (
        let p = services.preactivities st.world pod in
        prepared-Good request uuid (record st { world = p.0 }) p.1 p.2)
  ]
  decoded-Good request uuid st (err e) = quiet _ admits-IsCoded st.events
  decoded-Good request uuid st fault = λ r p. cc

  -- Every answer has the code of its verdict: 200 if it admits, else 403, or 429 or 500 outside dry-run
  -- mode. A request records one event at most, and that tells the verdict: "accepted" comes with
  -- an admission only, "blocked" and "invalid configuration" come with a refusal only.
  pub handle_effects :
      (request : Request) (uuid : String) (st : State W) (r : Response)
      → (handle services admission h request uuid st).1 ≡ ok r
      → IsCoded h r × IsTold st.events (handle services admission h request uuid st).0.events r
  unfolding handle
  handle_effects request uuid st = decoded-Good request uuid st (decode_pod services st request)
