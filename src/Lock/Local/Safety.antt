-- ===== src/Lock/Local/Safety.antt =====
-- What the lock on one cluster guarantees, over any API server that keeps its documented laws.
use x_pdb.Prelude.{
  ◌≡◌, sym, ◌∙◌, subst, ◌≢◌, ◌⊎◌, inl, inr, String, Option, none, some, arith, ok, Option-cases,
}
use x_pdb.Api.{LabelSelector}
use x_pdb.Lease.{
  LeaseSpec, Lease, Key, Naming, lease_duration_seconds, create_lease_for_selector,
  create_lease_name_for_selector,
}
use x_pdb.LeaseApi.{LeaseApi, IsServer, Created, Updated}
use x_pdb.Lock.Local.{Clock, local_lock}
use x_pdb.Lock.Local.Verdict.{Expired, taken, created-ok, created-writes}

-- What a lease says after it was obtained: the caller holds it, from the time of the call on, for five
-- seconds where the lease is new, and for as long as the former one where that had run out.
abbrev pub Obtained : Clock → String → Option Lease → LeaseSpec → Type 0
Obtained clock identity before after =
    ((before ≡ none)
      × (after ≡ record {
        holder_identity = some identity;
        acquire_time = some clock.created;
        lease_duration_seconds = some lease_duration_seconds;
      }))
    ⊎ ((l : Lease) × (before ≡ some l)
        × Expired clock.checked l
        × (after ≡ (taken clock identity l).spec))

pub Obtained-holder :
    (clock : Clock) (identity : String) (before : Option Lease) (after : LeaseSpec)
    → Obtained clock identity before after
    → after.holder_identity ≡ some identity
Obtained-holder clock identity before after (inl (b, e)) = ground arith
Obtained-holder clock identity before after (inr (l, b, x, e)) = ground arith

-- The key under which the lease of a selector is kept.
abbrev pub lock_key : Naming → String → String → LabelSelector → Key
lock_key names lease_namespace namespace selector = record {
  namespace = lease_namespace;
  name = create_lease_name_for_selector names namespace selector;
}

module _ {ℓ} {Store : Type ℓ} (api : LeaseApi Store) (holds : Store → Key → Option Lease)
    (server : IsServer api holds) (names : Naming) (lease_namespace identity namespace : String)
    (selector : LabelSelector) where
  abbrev key : Key
  key = lock_key names lease_namespace namespace selector

  -- LocalLock succeeds only where nobody holds the lock or the lease has run out, and then the caller
  -- holds it.
  pub local_lock-ok :
      (clock : Clock) (s : Store)
      → (local_lock api names lease_namespace clock identity namespace selector s).1 ≡ ok tt
      → (m : Lease) × (holds
            (local_lock api names lease_namespace clock identity namespace selector s).0
            key
          ≡ some m)
        × Obtained clock identity (holds s key) m.spec
  unfolding local_lock
  local_lock-ok clock s h = elim (created-ok api clock identity key (api.create s new) h) [
    | inl (c, e) ↦
        let (free, (m, held, spec)) = server.create_done s new c in (m, rw e held, inl (free, spec))
    | inr (x, l, c, a, g, y, u, e) ↦
        let (at, k) = server.get_done _ key l g in
        let (_, (m, held, spec)) = server.update_done _ (taken clock identity l) u in
        (
          m,
          rw e (
              subst
                (λ q. holds (api.update (api.create s new).0 (taken clock identity l)).0 q ≡ some m)
                k held),
          inr (l, sym (server.create_exists s new x c a) ∙ at, y, spec),
        )
  ]
    where
      new : Lease
      new =
          create_lease_for_selector names clock.created lease_namespace identity namespace selector

  -- What LocalLock may do to the lease, whatever it returns: nothing, or the caller obtains it.
  abbrev pub Keeps : Clock → Store → Store → Type 0
  Keeps clock s t =
      (holds t key ≡ holds s key)
      ⊎ ((m : Lease) × (holds t key ≡ some m) × Obtained clock identity (holds s key) m.spec)

  update-Keeps :
      (clock : Clock) (s : Store) (l : Lease)
      → api.get s key ≡ ok l
      → Expired clock.checked l
      → Keeps clock s (api.update s (taken clock identity l)).0
  update-Keeps clock s l g x =
      let new = taken clock identity l in
      let t = (api.update s new).0 in
      let (at, k) = server.get_done s key l g in
      let written : Updated holds new s t → Keeps clock s t =
        λ w. inr (w.1.0, subst (λ q. holds t q ≡ some w.1.0) k w.1.1, inr (l, at, x, w.1.2)) in
      elim (Option-cases (api.update s new).1) [
        | inl e ↦ written (server.update_done s new e)
        | inr (y, e) ↦ elim (server.update_unsure s new y e) [
          | inl same ↦ inl (subst (λ q. holds t q ≡ holds s q) k same)
          | inr w ↦ written w
        ]
      ]

  -- Whatever LocalLock returns, and also where the API server carries out a call that it answers with an
  -- error, the lease is as it was, or nobody held it or it had run out and the caller has obtained it.
  pub local_lock-Keeps :
      (clock : Clock) (s : Store)
      → Keeps clock s (local_lock api names lease_namespace clock identity namespace selector s).0
  unfolding local_lock
  local_lock-Keeps clock s =
      let made : Created holds new s (api.create s new).0 → Keeps clock s (api.create s new).0 =
        λ d. inr (d.1.0, d.1.1, inl (d.0, d.1.2)) in
      elim (created-writes api clock identity key (api.create s new)) [
        | inl t ↦ rw t (elim (Option-cases (api.create s new).1) [
          | inl e ↦ made (server.create_done s new e)
          | inr (x, e) ↦ elim (server.create_unsure s new x e) [
            | inl same ↦ inl same
            | inr d ↦ made d
          ]
        ])
        | inr (x, l, c, a, g, y, t) ↦
            rw (t, sym (server.create_exists s new x c a))
              (update-Keeps clock (api.create s new).0 l g y)
      ]
    where
      new : Lease
      new =
          create_lease_for_selector names clock.created lease_namespace identity namespace selector

  -- LocalLock leaves the locks of other selectors alone.
  pub local_lock-other :
      (clock : Clock) (s : Store) (j : Key)
      → j ≢ key
      → holds (local_lock api names lease_namespace clock identity namespace selector s).0 j
        ≡ holds s j
  unfolding local_lock
  local_lock-other clock s j other =
      elim (created-writes api clock identity key (api.create s new)) [
        | inl e ↦ rw e (server.create_other s new j other)
        | inr (x, l, c, a, g, y, e) ↦ rw e (
            server.update_other _ (taken clock identity l) j
              (λ p. other (p ∙ (server.get_done _ key l g).1))
            ∙ server.create_other s new j other)
      ]
    where
      new : Lease
      new =
          create_lease_for_selector names clock.created lease_namespace identity namespace selector
