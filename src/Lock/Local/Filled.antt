-- ===== src/Lock/Local/Filled.antt =====
-- The leases that x-pdb writes have a holder, a time and a duration, so that it never reads a nil
-- pointer of theirs.

use x_pdb.Prelude.{
  ◌≡◌, sym, ◌∙◌, subst, some_inj, ◌≢◌, inl, inr, String, Option, none, some, arith, fault,
  Bool-cases, Option-cases, Result-cases,
}
use x_pdb.Api.{LabelSelector}
use x_pdb.Lease.{LeaseSpec, Lease, Key, Naming, create_lease_for_selector}
use x_pdb.Lease.Keys.{Key-discrete}
use x_pdb.LeaseApi.{LeaseApi, IsServer, is_already_exists}
use x_pdb.Lock.Local.{Clock, check_deadline, take_over, created, local_lock}
use x_pdb.Lock.Local.Safety.{lock_key, Obtained, local_lock-Keeps, local_lock-other}

abbrev pub IsFilled : LeaseSpec → Type 0
IsFilled spec =
    (spec.holder_identity ≢ none)
    × (spec.acquire_time ≢ none)
    × (spec.lease_duration_seconds ≢ none)

-- Every lease of the server is filled in.
abbrev pub Filled {ℓ} : {Store : Type ℓ} → (Store → Key → Option Lease) → Store → Type 0
Filled holds s = (k : Key) (l : Lease) → holds s k ≡ some l → IsFilled l.spec

Obtained-IsFilled :
    (clock : Clock) (identity : String) (before : Option Lease) (after : LeaseSpec)
    → Obtained clock identity before after
    → IsFilled after
Obtained-IsFilled clock identity before after (inl (b, e)) = ground arith
Obtained-IsFilled clock identity before after (inr (l, b, (a, d, p, q, t), e)) = ground arith

module _ {ℓ} {Store : Type ℓ} (api : LeaseApi Store) (holds : Store → Key → Option Lease)
    (server : IsServer api holds) (names : Naming) (lease_namespace identity namespace : String)
    (selector : LabelSelector) where
  abbrev key : Key
  key = lock_key names lease_namespace namespace selector

  check_deadline-returns :
      (clock : Clock) (s : Store) (l : Lease)
      → IsFilled l.spec
      → (check_deadline api clock identity s l l.spec.acquire_time l.spec.lease_duration_seconds).1
        ≢ fault
  unfolding check_deadline
  check_deadline-returns clock s l (h, a, d) = ground arith

  take_over-returns :
      (clock : Clock) (s : Store)
      → ((l : Lease) → holds s key ≡ some l → IsFilled l.spec)
      → (take_over api clock identity s (api.get s key)).1 ≢ fault
  unfolding take_over
  take_over-returns clock s f = elim (Result-cases (api.get s key)) [
    | inl (l, e) ↦ rw e (check_deadline-returns clock s l (f l (server.get_done s key l e).0))
    | inr (inl (x, e)) ↦ rw e (λ p. cc)
    | inr (inr e) ↦ absurd (server.get_returns s key e)
  ]

  local_lock-returns :
      (clock : Clock) (s : Store)
      → Filled holds s
      → (local_lock api names lease_namespace clock identity namespace selector s).1 ≢ fault
  unfolding local_lock created
  local_lock-returns clock s f = elim (Option-cases (api.create s new).1) [
    | inl e ↦ λ p. ground arith
    | inr (x, e) ↦ elim (Bool-cases (is_already_exists x)) [
      | inl old ↦ ground (
        arith,
        e,
        take_over-returns clock (api.create s new).0
            (λ l h. f key l (sym (server.create_exists s new x e old) ∙ h)),
      )
      | inr other ↦ λ p. ground (arith, e)
    ]
  ]
    where
      new : Lease
      new =
          create_lease_for_selector names clock.created lease_namespace identity namespace selector

  abbrev after : Clock → Store → Store
  after clock s = (local_lock api names lease_namespace clock identity namespace selector s).0

  local_lock_leaves_own :
      (clock : Clock) (s : Store)
      → Filled holds s
      → (l : Lease) → holds (after clock s) key ≡ some l
      → IsFilled l.spec
  local_lock_leaves_own clock s f l e =
      elim (local_lock-Keeps api holds server names lease_namespace identity namespace selector
        clock s) [
          | inl same ↦ f key l (sym same ∙ e)
          | inr (m, h, o) ↦
              subst (λ (q : Lease). IsFilled q.spec) (some_inj (sym h ∙ e))
                (Obtained-IsFilled clock identity (holds s key) m.spec o)
        ]

  local_lock_leaves :
      (clock : Clock) (s : Store)
      → Filled holds s
      → Filled holds (local_lock api names lease_namespace clock identity namespace selector s).0
  local_lock_leaves clock s f k l e = elim (Key-discrete k key) [
    | yes here ↦
        local_lock_leaves_own clock s f l (subst (λ j. holds (after clock s) j ≡ some l) here e)
    | no other ↦ f k l (
        sym (
          local_lock-other api holds server names lease_namespace identity namespace selector clock
            s k other)
        ∙ e)
  ]

  -- Where every lease is filled in, LocalLock does not panic, and leaves them so.
  pub local_lock-Filled :
      (clock : Clock) (s : Store)
      → Filled holds s
      → ((local_lock api names lease_namespace clock identity namespace selector s).1 ≢ fault)
        × Filled holds (local_lock api names lease_namespace clock identity namespace selector s).0
  local_lock-Filled clock s f = (local_lock-returns clock s f, local_lock_leaves clock s f)
