-- ===== src/Lock/Local/Progress.antt =====
-- When LocalLock answers what, over an API server that is available.
use x_pdb.Prelude.{
  ℕ, ◌+◌, ◌*◌, ◌<◌, ◌≡◌, refl, sym, ◌∙◌, ◌↔◌, ◌⊎◌, inl, inr, subst, String, Option, none, some,
  arith, Error, already_exists, msg, ok, err,
}
use x_pdb.Api.{LabelSelector}
use x_pdb.Lease.{Lease, Key, Naming, create_lease_for_selector}
use x_pdb.LeaseApi.{LeaseApi, IsServer, IsAvailable}
use x_pdb.Lock.Local.{
  Clock, second, updated, not_reached, check_deadline, take_over, created, local_lock,
}
use x_pdb.Lock.Local.Verdict.{Expired, taken}
use x_pdb.Lock.Local.Safety.{lock_key, local_lock-ok}

-- Somebody holds the lease, and it has not run out at the time `t`.
abbrev pub Live : ℕ → Lease → Type 0
Live t l =
    (h : String) × (a : ℕ) × (d : ℕ) × (l.spec.holder_identity ≡ some h)
    × (l.spec.acquire_time ≡ some a)
    × (l.spec.lease_duration_seconds ≡ some d)
    × (t < a + second * d)

module _ {ℓ} {Store : Type ℓ} (api : LeaseApi Store) (holds : Store → Key → Option Lease)
    (server : IsServer api holds) (names : Naming) (lease_namespace identity namespace : String)
    (selector : LabelSelector) where
  module _ (up : IsAvailable api holds) where
    -- A lock that nobody holds is obtained.
    local_lock_free :
        (clock : Clock) (s : Store)
        → holds s (lock_key names lease_namespace namespace selector) ≡ none
        → (local_lock api names lease_namespace clock identity namespace selector s).1 ≡ ok tt
    unfolding local_lock created
    local_lock_free clock s h = ground (arith, up.create_free s new h)
      where
        new : Lease
        new =
            create_lease_for_selector names clock.created lease_namespace identity namespace
              selector

    created_taken :
        (clock : Clock) (k : Key) (c : Store × Option Error) (l : Lease)
        → c.1 ≡ some already_exists
        → holds c.0 k ≡ some l
        → created api clock identity k c
          ≡ check_deadline api clock identity c.0 l l.spec.acquire_time
              l.spec.lease_duration_seconds
    unfolding created take_over
    created_taken clock k c l e h = ground (arith, up.get_held c.0 k l h)

    local_lock_taken :
        (clock : Clock) (s : Store) (l : Lease)
        → holds s (lock_key names lease_namespace namespace selector) ≡ some l
        → (s' : Store) × (holds s' (lock_key names lease_namespace namespace selector) ≡ some l)
          × (local_lock api names lease_namespace clock identity namespace selector s
              ≡ check_deadline api clock identity s' l l.spec.acquire_time
                  l.spec.lease_duration_seconds)
    unfolding local_lock
    local_lock_taken clock s l h =
        let e = up.create_taken s new l h in
        let h' = server.create_exists s new already_exists e refl ∙ h in
        ((api.create s new).0, h', created_taken clock new.key (api.create s new) l e h')
      where
        new : Lease
        new =
            create_lease_for_selector names clock.created lease_namespace identity namespace
              selector

    check_deadline-Expired :
        (clock : Clock) (s : Store) (l : Lease) (acquired duration : Option ℕ)
        → l.spec.acquire_time ≡ acquired
        → l.spec.lease_duration_seconds ≡ duration
        → holds s l.key ≡ some l
        → Expired clock.checked l
        → (check_deadline api clock identity s l acquired duration).1 ≡ ok tt
    unfolding check_deadline updated
    check_deadline-Expired clock s l a d p q h x =
        ground (arith, up.update_current s (taken clock identity l) l h refl)

    -- A lock whose lease has run out is obtained, whoever held it.
    local_lock-Expired :
        (clock : Clock) (s : Store) (l : Lease)
        → holds s (lock_key names lease_namespace namespace selector) ≡ some l
        → Expired clock.checked l
        → (local_lock api names lease_namespace clock identity namespace selector s).1 ≡ ok tt
    local_lock-Expired clock s l h x =
        let (s', h', e) = local_lock_taken clock s l h in
        rw e (
          check_deadline-Expired clock s' l _ _ refl refl
            (subst (λ k. holds s' k ≡ some l)
              (sym (server.get_done s' _ l (up.get_held s' _ l h')).1) h')
            x)

    -- LocalLock succeeds exactly if nobody holds the lock or the lease has run out, whoever held it.
    pub local_lock-ok_iff :
        (clock : Clock) (s : Store)
        → ((local_lock api names lease_namespace clock identity namespace selector s).1 ≡ ok tt) ↔ (
            (holds s (lock_key names lease_namespace namespace selector) ≡ none)
            ⊎ ((l : Lease) × (holds s (lock_key names lease_namespace namespace selector) ≡ some l)
                × Expired clock.checked l))
    local_lock-ok_iff clock s = (
      (λ e.
          let (m, h, o) =
            local_lock-ok api holds server names lease_namespace identity namespace selector clock s
              e in
          elim o [ inl (b, a) ↦ inl b | inr (l, b, x, a) ↦ inr (l, b, x) ]),
      (λ o. elim o [
        | inl b ↦ local_lock_free clock s b
        | inr (l, b, x) ↦ local_lock-Expired clock s l b x
      ]),
    )

    -- A lock that is held is refused, also to the one who holds it.
    pub local_lock_held :
        (clock : Clock) (s : Store) (l : Lease)
        → holds s (lock_key names lease_namespace namespace selector) ≡ some l
        → Live clock.checked l
        → (local_lock api names lease_namespace clock identity namespace selector s).1
          ≡ err (msg "lease deadline not reached")
    unfolding check_deadline not_reached
    local_lock_held clock s l h x =
        let (s', h', e) = local_lock_taken clock s l h in rw e (ground arith)
