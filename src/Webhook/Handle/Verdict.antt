-- ===== src/Webhook/Handle/Verdict.antt =====
-- Which requests the webhook admits.
use x_pdb.Prelude.{
  ◌≡◌, refl, ◌⊎◌, inl, inr, String, Bool, true, false, none, some, List, [], ◌∷◌, arith, msg, wrap,
  Result, ok, err, fault, Bool-cases,
}
use x_pdb.Api.{Pod, Xpdb}
use x_pdb.Webhook.{Request, Response, Config, Services, State, Admission, IsAdmission}
use x_pdb.Webhook.Handle.{
  is_set, is_enabled, decode_pod, is_ignored, respond, probed, check_probe, budgeted, locked,
  guarded, ambiguous, selected, prepared, decoded, handle,
}
use x_pdb.Webhook.Handle.Answers.{
  respond_denies, respond_admits, handle_error_denies, not_allowed_denies, accept_admits,
}
use x_pdb.Webhook.Handle.Admitted.{
  Approved, identity_of, Cleared, Unguarded, Uncovered, AdmittedAs, Admitted, AdmitsIff, only,
  several, unread, broken, undecoded, crashed,
}

module _ {W : Type 0} (services : Services W) (h : Config) where
  open services use {preactivities, get_xpdbs_for_pod, lock, budget, probe}

  module _ (admission : Admission) (law : IsAdmission admission) where
    -- An answer that never admits.
    denied :
        {P : Type 0} {x : Result Response}
        → ((r : Response) → x ≡ ok r → r.allowed ≡ false)
        → ¬ P
        → AdmitsIff services h x P
    denied d n = ((λ r e a. absurd (ground (arith, d r e))), (λ p. absurd (n p)))

    probed-AdmitsIff :
        (request : Request) (xpdb : Xpdb) (pod : Pod) (identity : String) (st : State W)
        (v : Result Bool)
        → AdmitsIff services h
            (probed services admission h request xpdb pod identity st v).1
            (v ≡ ok true)
    unfolding probed
    probed-AdmitsIff request xpdb pod identity st (ok true) =
        (λ r e a. refl, λ p. accept_admits services h admission law xpdb pod st)
    probed-AdmitsIff request xpdb pod identity st (ok false) =
        denied (not_allowed_denies services h admission law request (some xpdb) pod identity _ st)
          (λ e. cc)
    probed-AdmitsIff request xpdb pod identity st (err e) =
        denied (handle_error_denies services h admission law (some xpdb) _ e identity st) (λ e. cc)
    probed-AdmitsIff request xpdb pod identity st fault = denied (λ r e. cc) (λ e. cc)

    check_probe-AdmitsIff :
        (request : Request) (xpdb : Xpdb) (pod : Pod) (identity : String) (st : State W)
        → AdmitsIff services h
            (check_probe services admission h request xpdb pod identity st).1
            (Approved services h st.world pod xpdb)
    unfolding check_probe
    check_probe-AdmitsIff request xpdb pod identity st =
        elim (Bool-cases (is_enabled xpdb.spec.probe)) [
          | inl on ↦
              let q = probe st.world pod xpdb in
              let v = probed-AdmitsIff request xpdb pod identity (record st { world = q.0 }) q.1 in
              rw on ((λ r e a. inr (refl, v.0 r e a)), (λ p. v.1 (agreed p)))
          | inr off ↦
              rw off
                ((λ r e a. inl refl), (λ p. accept_admits services h admission law xpdb pod st))
        ]
      where
        agreed :
            (true ≡ false) ⊎ ((true ≡ true) × ((probe st.world pod xpdb).1 ≡ ok true))
            → (probe st.world pod xpdb).1 ≡ ok true
        agreed (inl e) = cc
        agreed (inr (e, p)) = p

    budgeted-AdmitsIff :
        (request : Request) (xpdb : Xpdb) (pod : Pod) (identity : String) (st : State W)
        (v : Result Bool)
        → AdmitsIff services h
            (budgeted services admission h request xpdb pod identity st v).1
            ((v ≡ ok true) × Approved services h st.world pod xpdb)
    unfolding budgeted
    budgeted-AdmitsIff request xpdb pod identity st (ok true) =
        let c = check_probe-AdmitsIff request xpdb pod identity st in
        ((λ r e a. (refl, c.0 r e a)), (λ p. c.1 p.1))
    budgeted-AdmitsIff request xpdb pod identity st (ok false) =
        denied (not_allowed_denies services h admission law request (some xpdb) pod identity _ st)
          (λ e. cc (e.0))
    budgeted-AdmitsIff request xpdb pod identity st (err e) =
        denied (handle_error_denies services h admission law (some xpdb) _ e identity st)
          (λ e. cc (e.0))
    budgeted-AdmitsIff request xpdb pod identity st fault = denied (λ r e. cc) (λ e. cc (e.0))

    locked-AdmitsIff :
        (request : Request) (xpdb : Xpdb) (pod : Pod) (identity : String) (st : State W)
        (v : Result (Unit {0}))
        → AdmitsIff services h (locked services admission h request xpdb pod identity st v).1 (
            (v ≡ ok tt)
            × ((budget st.world pod xpdb).1 ≡ ok true)
            × Approved services h (budget st.world pod xpdb).0 pod xpdb)
    unfolding locked
    locked-AdmitsIff request xpdb pod identity st (ok u) =
        let b = budget st.world pod xpdb in
        let c = budgeted-AdmitsIff request xpdb pod identity (record st { world = b.0 }) b.1 in
        ((λ r e a. (refl, (c.0 r e a).0, (c.0 r e a).1)), (λ p. c.1 (p.1, p.2)))
    locked-AdmitsIff request xpdb pod identity st (err e) =
        denied
          (λ r p. ground (
            arith,
            respond_denies services h admission law
                (some (msg "Cannot disrupt pod because xpdb couldn't obtain lock")) none,
          ))
          (λ e. cc (e.0))
    locked-AdmitsIff request xpdb pod identity st fault = denied (λ r e. cc) (λ e. cc (e.0))

    admits :
        {P : Type 0} → P → AdmitsIff services h (ok (respond services admission h true none none)) P
    admits p = (
      λ r e a. p,
      λ q. (
        respond services admission h true none none,
        refl,
        respond_admits services h admission law,
      ),
    )

    guarded-AdmitsIff :
        (request : Request) (xpdb : Xpdb) (pod : Pod) (uuid : String) (st : State W)
        → AdmitsIff services h
            (guarded services admission h request xpdb pod uuid st).1
            (Unguarded services h st.world pod xpdb uuid)
    unfolding guarded
    guarded-AdmitsIff request xpdb pod uuid st = elim (Bool-cases (is_set xpdb.spec.suspend)) [
      | inl on ↦ rw on (admits (inl refl))
      | inr off ↦
          let q =
            lock st.world (identity_of services h pod uuid) xpdb.namespace xpdb.spec.selector in
          let c =
            locked-AdmitsIff request xpdb pod (identity_of services h pod uuid)
              (record st { world = q.0 }) q.1 in
          rw off ((λ r e a. inr (refl, c.0 r e a)), (λ p. c.1 (held p)))
    ]
      where
        held :
            (false ≡ true) ⊎ ((false ≡ false) × Cleared services h st.world pod xpdb uuid)
            → Cleared services h st.world pod xpdb uuid
        held (inl e) = cc
        held (inr (e, p)) = p

    selected-AdmitsIff :
        (request : Request) (pod : Pod) (uuid : String) (st : State W) (v : Result (List Xpdb))
        → AdmitsIff services h
            (selected services admission h request pod uuid st v).1
            (Uncovered services h st.world pod uuid v)
    unfolding selected ambiguous
    selected-AdmitsIff request pod uuid st (ok []) = admits (inl refl)
    selected-AdmitsIff request pod uuid st (ok (x ∷ [])) =
        let c = guarded-AdmitsIff request x pod uuid st in
        ((λ r e a. inr (x, refl, c.0 r e a)), (λ p. c.1 (only services h st.world pod uuid x p)))
    selected-AdmitsIff request pod uuid st (ok (x ∷ y ∷ xs)) =
        denied
          (λ r p. ground (
            arith,
            respond_denies services h admission law
                (some (msg "Cannot disrupt pod as it matched multiple xpdbs.")) (some 500),
          ))
          (several services h st.world pod uuid x y xs)
    selected-AdmitsIff request pod uuid st (err e) =
        denied
          (λ r p. ground (
            arith,
            respond_denies services h admission law (some (wrap "could not get xpdbs for pod" e))
                none,
          ))
          (unread services h st.world pod uuid e)
    selected-AdmitsIff request pod uuid st fault =
        denied (λ r e. cc) (broken services h st.world pod uuid)

    prepared-AdmitsIff :
        (request : Request) (uuid : String) (st : State W) (pod : Pod) (v : Result Bool)
        → AdmitsIff services h (prepared services admission h request uuid st pod v).1 (
            (v ≡ ok true) × Uncovered services h st.world pod uuid (get_xpdbs_for_pod st.world pod))
    unfolding prepared
    prepared-AdmitsIff request uuid st pod (ok true) =
        let c = selected-AdmitsIff request pod uuid st (get_xpdbs_for_pod st.world pod) in
        ((λ r e a. (refl, c.0 r e a)), (λ p. c.1 p.1))
    prepared-AdmitsIff request uuid st pod (ok false) =
        denied (not_allowed_denies services h admission law request none pod "" _ st)
          (λ e. cc (e.0))
    prepared-AdmitsIff request uuid st pod (err e) =
        denied
          (handle_error_denies services h admission law none "" e
            "error verifying if pod had pending pre-activities" st)
          (λ e. cc (e.0))
    prepared-AdmitsIff request uuid st pod fault = denied (λ r e. cc) (λ e. cc (e.0))

    decoded-AdmitsIff :
        (request : Request) (uuid : String) (st : State W) (v : Result Pod)
        → AdmitsIff services h
            (decoded services admission h request uuid st v).1
            (AdmittedAs services h st uuid v)
    unfolding decoded
    decoded-AdmitsIff request uuid st (ok pod) = elim (Bool-cases (is_ignored pod)) [
      | inl on ↦ rw on (admits (inr (pod, refl, inl on)))
      | inr off ↦
          let q = preactivities st.world pod in
          let c = prepared-AdmitsIff request uuid (record st { world = q.0 }) q.1 q.2 in
          rw off (
            (λ r e a. inr (pod, refl, inr (off, c.0 r e a))),
            (λ p. c.1 (undecoded services h st uuid pod off p)),
          )
    ]
    decoded-AdmitsIff request uuid st (err e) = admits (inl (e, refl))
    decoded-AdmitsIff request uuid st fault = denied (λ r e. cc) (crashed services h st uuid)

    -- The webhook admits a request exactly if the pod cannot be decoded, or is not to be kept, or has no
    -- pending pre-activity while no budget covers it, or only a suspended one, or only one for which
    -- first the lock is obtained, then the budget allows the disruption, then the probe agrees.
    pub handle-AdmitsIff :
        (request : Request) (uuid : String) (st : State W)
        → AdmitsIff services h
            (handle services admission h request uuid st).1
            (Admitted services h st request uuid)
    unfolding handle
    handle-AdmitsIff request uuid st =
        decoded-AdmitsIff request uuid st (decode_pod services st request)
