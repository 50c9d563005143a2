-- ===== src/Webhook/Handle/Locking.antt =====
-- What becomes of the lock in a request.
use x_pdb.Prelude.{
  ◌≡◌, refl, subst, ok_inj, ◌⊎◌, inl, inr, String, Bool, true, false, some, none, [], ◌∷◌,
  if◌then◌else◌, arith, Error, msg, wrap, Result, ok, err, fault, Bool-cases,
}
use x_pdb.Api.{Pod, Xpdb}
use x_pdb.Webhook.{Request, Response, Config, Services, State, Admission, IsAdmission, accepted}
use x_pdb.Webhook.Handle.{
  is_set, is_enabled, decode_pod, is_ignored, respond, release, about_pod, handle_error,
  handle_not_allowed_disruption, accept, probed, check_probe, budgeted, locked, guarded, selected,
  prepared, decoded, handle,
}
use x_pdb.Webhook.Handle.Admitted.{identity_of}
use x_pdb.Webhook.Handle.Answers.{answered-ok, respond_denies, respond_admits}

-- The state of the cluster after the budget was asked and, where that allowed the disruption and there
-- is a probe, the probe.
abbrev pub asked : {W : Type 0} → Services W → Pod → Xpdb → W × Result Bool → W
asked services pod xpdb (w, ok true) =
    if is_enabled xpdb.spec.probe then (services.probe w pod xpdb).0 else w
asked services pod xpdb (w, ok false) = w
asked services pod xpdb (w, err e) = w
asked services pod xpdb (w, fault) = w

module _ {W : Type 0} (services : Services W) (h : Config) (admission : Admission)
    (law : IsAdmission admission) where
  open services use {preactivities, get_xpdbs_for_pod, lock, unlock, budget, probe}

  -- The lock is kept by a request that is admitted, with an event, and given back by one that is not.
  abbrev pub Settled : State W → W → Pod → Xpdb → String → State W → Response → Type 0
  Settled st w pod xpdb identity st' r =
      ((r.allowed ≡ true)
        × (st'.world ≡ w)
        × (st'.events ≡ about_pod accepted xpdb pod ∷ st.events))
      ⊎ ((r.allowed ≡ false)
          × (st'.world ≡ (unlock w identity xpdb.namespace xpdb.spec.selector).0))

  accept-Settled :
      (st : State W) (pod : Pod) (xpdb : Xpdb) (identity : String) (r : Response)
      → (accept services admission h xpdb pod st).1 ≡ ok r
      → Settled st st.world pod xpdb identity (accept services admission h xpdb pod st).0 r
  unfolding accept
  accept-Settled st pod xpdb identity r e = inl (
    subst (λ (q : Response). q.allowed ≡ true) (ok_inj e) (respond_admits services h admission law),
    refl,
    refl,
  )

  handle_error-Settled :
      (st : State W) (pod : Pod) (xpdb : Xpdb) (d : String) (e : Error) (identity : String)
      (r : Response)
      → (handle_error services admission h (some xpdb) d e identity st).1 ≡ ok r
      → Settled st st.world pod xpdb identity
          (handle_error services admission h (some xpdb) d e identity st).0
          r
  unfolding handle_error release
  handle_error-Settled st pod xpdb d e identity r p = inr (
    subst (λ (q : Response). q.allowed ≡ false) (answered-ok services h admission law _ r _ p)
        (respond_denies services h admission law (some (wrap d e)) none),
    refl,
  )

  not_allowed-Settled :
      (request : Request) (st : State W) (pod : Pod) (xpdb : Xpdb) (identity m : String)
      (r : Response)
      → (handle_not_allowed_disruption services admission h request (some xpdb) pod identity m st).1
        ≡ ok r
      → Settled st st.world pod xpdb identity
          (handle_not_allowed_disruption services admission h request
            (some xpdb)
            pod
            identity
            m
            st).0
          r
  unfolding handle_not_allowed_disruption release
  not_allowed-Settled request st pod xpdb identity m r p = inr (
    subst (λ (q : Response). q.allowed ≡ false) (answered-ok services h admission law _ r _ p)
        (respond_denies services h admission law (some (msg m)) (some 429)),
    refl,
  )

  probed-Settled :
      (request : Request) (st : State W) (pod : Pod) (xpdb : Xpdb) (identity : String)
      (v : Result Bool) (r : Response)
      → (probed services admission h request xpdb pod identity st v).1 ≡ ok r
      → Settled st st.world pod xpdb identity
          (probed services admission h request xpdb pod identity st v).0
          r
  unfolding probed
  probed-Settled request st pod xpdb identity (ok true) r p =
      accept-Settled st pod xpdb identity r p
  probed-Settled request st pod xpdb identity (ok false) r p =
      not_allowed-Settled request st pod xpdb identity _ r p
  probed-Settled request st pod xpdb identity (err e) r p =
      handle_error-Settled st pod xpdb _ e identity r p
  probed-Settled request st pod xpdb identity fault r p = cc

  budgeted-Settled :
      (request : Request) (st : State W) (pod : Pod) (xpdb : Xpdb) (identity : String)
      (v : Result Bool) (r : Response)
      → (budgeted services admission h request xpdb pod identity st v).1 ≡ ok r
      → Settled st
          (asked services pod xpdb (st.world, v))
          pod
          xpdb
          identity
          (budgeted services admission h request xpdb pod identity st v).0
          r
  unfolding budgeted check_probe
  budgeted-Settled request st pod xpdb identity (ok true) r p =
      elim (Bool-cases (is_enabled xpdb.spec.probe)) [
        | inl on ↦
            rw (on, check_probe)
              (probed-Settled request (record st { world = (probe st.world pod xpdb).0 }) pod xpdb
                identity (probe st.world pod xpdb).1 r (ground arith))
        | inr off ↦ rw (off, check_probe) (accept-Settled st pod xpdb identity r (ground arith))
      ]
  budgeted-Settled request st pod xpdb identity (ok false) r p =
      not_allowed-Settled request st pod xpdb identity _ r p
  budgeted-Settled request st pod xpdb identity (err e) r p =
      handle_error-Settled st pod xpdb _ e identity r p
  budgeted-Settled request st pod xpdb identity fault r p = cc

  module _ (request : Request) (uuid : String) (st : State W) (pod : Pod) (xpdb : Xpdb)
      (readable : decode_pod services st request ≡ ok pod) (ours : is_ignored pod ≡ false)
      (ready : (preactivities st.world pod).2 ≡ ok true)
      (covered : get_xpdbs_for_pod (preactivities st.world pod).0 (preactivities st.world pod).1
        ≡ ok (xpdb ∷ []))
      (active : is_set xpdb.spec.suspend ≡ false) where
    -- The pod as the pre-activities service left it, and the identity that the lock is asked for.
    abbrev pod' : Pod
    pod' = (preactivities st.world pod).1

    abbrev identity : String
    identity = identity_of services h pod' uuid

    abbrev attempt : W × Result (Unit {0})
    attempt = lock (preactivities st.world pod).0 identity xpdb.namespace xpdb.spec.selector

    reaches_lock :
        handle services admission h request uuid st
        ≡ locked services admission h request xpdb pod' identity
            (record st { world = attempt.0 })
            attempt.1
    unfolding handle
    reaches_lock = rw (readable, decoded, ours, ready, prepared, covered, selected, active, guarded)

    -- A request that obtains the lock keeps it if it is admitted, which an event tells; if it is
    -- refused, the lock is given back once, after the checks. Other than by these calls and the checks
    -- the cluster is not changed.
    pub handle-Settled :
        (r : Response)
        → attempt.1 ≡ ok tt
        → (handle services admission h request uuid st).1 ≡ ok r
        → Settled st
            (asked services pod' xpdb (budget attempt.0 pod' xpdb))
            pod'
            xpdb
            identity
            (handle services admission h request uuid st).0
            r
    unfolding locked
    handle-Settled r got e =
        rw (reaches_lock, got, locked)
          (budgeted-Settled request (record st { world = (budget attempt.0 pod' xpdb).0 }) pod' xpdb
            identity (budget attempt.0 pod' xpdb).1 r (rw (reaches_lock, got, locked) at e))

    -- A request that does not obtain the lock is refused, and after Lock the cluster is not changed.
    pub handle_unlocked :
        (e : Error)
        → attempt.1 ≡ err e
        → ((handle services admission h request uuid st).0.world ≡ attempt.0)
          × ((r : Response) × ((handle services admission h request uuid st).1 ≡ ok r)
              × (r.allowed ≡ false))
    unfolding locked
    handle_unlocked e failed =
        let refusal = msg "Cannot disrupt pod because xpdb couldn't obtain lock" in
        rw (reaches_lock, failed, locked)
          (
            refl,
            (
              respond services admission h false (some refusal) none,
              refl,
              respond_denies services h admission law (some refusal) none,
            ),
          )
