-- ===== src/Webhook/Handle/Admitted.antt =====
-- What the webhook asks of the world before it admits a request.
use x_pdb.Prelude.{
  ◌≡◌, subst, ◌⊎◌, inl, inr, String, Bool, true, false, List, [], ◌∷◌, arith, Error, Result, ok,
  err, fault,
}
use x_pdb.Api.{Pod, Xpdb}
use x_pdb.Webhook.{Request, Response, Config, Services, State, create_lease_holder_identity}
use x_pdb.Webhook.Handle.{is_set, is_enabled, decode_pod, is_ignored}

module _ {W : Type 0} (services : Services W) (h : Config) where
  open services use {preactivities, get_xpdbs_for_pod, lock, budget, probe}

  -- There is no probe to ask, or it agrees.
  abbrev pub Approved : W → Pod → Xpdb → Type 0
  Approved w pod xpdb =
      (is_enabled xpdb.spec.probe ≡ false)
      ⊎ ((is_enabled xpdb.spec.probe ≡ true) × ((probe w pod xpdb).1 ≡ ok true))

  abbrev pub identity_of : Pod → String → String
  identity_of pod uuid =
      create_lease_holder_identity h.cluster_id h.pod_id pod.namespace pod.name uuid

  -- The lock is obtained, then the budget allows the disruption, then the probe does.
  abbrev pub Cleared : W → Pod → Xpdb → String → Type 0
  Cleared w pod xpdb uuid =
      let l = lock w (identity_of pod uuid) xpdb.namespace xpdb.spec.selector in
      let b = budget l.0 pod xpdb in (l.1 ≡ ok tt) × (b.1 ≡ ok true) × Approved b.0 pod xpdb

  abbrev pub Unguarded : W → Pod → Xpdb → String → Type 0
  Unguarded w pod xpdb uuid =
      (is_set xpdb.spec.suspend ≡ true)
      ⊎ ((is_set xpdb.spec.suspend ≡ false) × Cleared w pod xpdb uuid)

  -- No budget covers the pod, or the only one that does lets it go.
  abbrev pub Uncovered : W → Pod → String → Result (List Xpdb) → Type 0
  Uncovered w pod uuid r =
      (r ≡ ok []) ⊎ ((xpdb : Xpdb) × (r ≡ ok (xpdb ∷ [])) × Unguarded w pod xpdb uuid)

  abbrev pub Prepared : W × Pod × Result Bool → String → Type 0
  Prepared p uuid = (p.2 ≡ ok true) × Uncovered p.0 p.1 uuid (get_xpdbs_for_pod p.0 p.1)

  abbrev pub AdmittedAs : State W → String → Result Pod → Type 0
  AdmittedAs st uuid v =
      ((e : Error) × (v ≡ err e))
      ⊎ ((pod : Pod) × (v ≡ ok pod)
          × ((is_ignored pod ≡ true)
              ⊎ ((is_ignored pod ≡ false) × Prepared (preactivities st.world pod) uuid)))

  -- A request is admitted if its pod cannot be decoded, or if the pod is not ours to keep, or if it has
  -- no pending pre-activity and no budget holds it.
  abbrev pub Admitted : State W → Request → String → Type 0
  Admitted st request uuid = AdmittedAs st uuid (decode_pod services st request)

  -- An answer that admits exactly if `P`.
  abbrev pub AdmitsIff : Result Response → Type 0 → Type 0
  AdmitsIff x P =
      ((r : Response) → x ≡ ok r → r.allowed ≡ true → P)
      × (P → (r : Response) × (x ≡ ok r) × (r.allowed ≡ true))

  pub only :
      (w : W) (pod : Pod) (uuid : String) (x : Xpdb)
      → Uncovered w pod uuid (ok (x ∷ []))
      → Unguarded w pod x uuid
  only w pod uuid x (inl e) = cc
  only w pod uuid x (inr (y, e, u)) = subst (λ z. Unguarded w pod z uuid) (cc) u

  pub several :
      (w : W) (pod : Pod) (uuid : String) (x y : Xpdb) (xs : List Xpdb)
      → ¬ Uncovered w pod uuid (ok (x ∷ y ∷ xs))
  several w pod uuid x y xs (inl e) = cc
  several w pod uuid x y xs (inr (z, e, u)) = cc

  pub unread : (w : W) (pod : Pod) (uuid : String) (e : Error) → ¬ Uncovered w pod uuid (err e)
  unread w pod uuid e (inl p) = cc
  unread w pod uuid e (inr (z, p, u)) = cc

  pub broken : (w : W) (pod : Pod) (uuid : String) → ¬ Uncovered w pod uuid fault
  broken w pod uuid (inl p) = cc
  broken w pod uuid (inr (z, p, u)) = cc

  pub undecoded :
      (st : State W) (uuid : String) (pod : Pod)
      → is_ignored pod ≡ false
      → AdmittedAs st uuid (ok pod)
      → Prepared (preactivities st.world pod) uuid
  undecoded st uuid pod off (inl (e, p)) = cc
  undecoded st uuid pod off (inr (q, e, inl on)) = absurd (ground arith)
  undecoded st uuid pod off (inr (q, e, inr (f, p))) =
      subst (λ z. Prepared (preactivities st.world z) uuid) (cc) p

  pub crashed : (st : State W) (uuid : String) → ¬ AdmittedAs st uuid fault
  crashed st uuid (inl (e, p)) = cc
  crashed st uuid (inr (q, e, a)) = cc
