-- ===== src/Lock/Local/Race/Alone.antt =====
-- A request that runs alone.
use x_pdb.Prelude.{
  ℕ, ◌+◌, ◌*◌, ◌==◌, ◌≡◌, refl, String, Option, none, some, Error, Result, ok, err, fault,
  Bool-cases, inl, inr, ltb, List, [], ◌∷◌,
}
use x_pdb.Api.{LabelSelector}
use x_pdb.Lease.{Key, Lease, Naming}
use x_pdb.LeaseApi.{LeaseApi, is_not_found, is_already_exists}
use x_pdb.Lock.Local.{
  Clock, second, local_lock, local_unlock, created, check_deadline, take_over, release, updated,
  not_reached, deleted, check_holder,
}
use x_pdb.Lock.Local.Race.{
  Pc, starting, holding, refused, asking, released, advance, tested, taken_at, lease_at,
  after_create, after_get, after_update, compared, after_ask, after_delete,
}

-- What LocalLock returned to a request that stands there.
abbrev pub lock_result : Pc → Option (Result (Unit {0}))
lock_result (holding time) = some (ok tt)
lock_result (refused r) = some r
lock_result p = none

abbrev pub unlock_result : Pc → Option (Result (Unit {0}))
unlock_result (released r) = some r
unlock_result p = none

-- A request left the same leases as the call, and returned the same.
abbrev pub Agrees {ℓ} :
    {Store : Type ℓ}
    → (Pc → Option (Result (Unit {0})))
    → Store × Pc
    → Store × Result (Unit {0})
    → Type ℓ
Agrees result p q = (p.0 ≡ q.0) × (result p.1 ≡ some q.1)

module _ {ℓ} {Store : Type ℓ} (api : LeaseApi Store) (names : Naming)
    (lease_namespace namespace : String) (selector : LabelSelector) where
  -- A row of steps of one request, with the clock's readings.
  unfoldable pub run : String → List ℕ → Store × Pc → Store × Pc
  run identity [] p = p
  run identity (t ∷ ts) (s, p) =
      run identity ts (advance api names lease_namespace namespace selector identity t s p)

  written :
      (time : ℕ) (c : Store × Option Error)
      → Agrees lock_result (after_update api time c) (updated api c)
  unfolding after_update updated
  written time (s, none) = (refl, refl)
  written time (s, some e) = (refl, refl)

  -- From the test of the deadline on.
  from_test :
      (identity : String) (clock : Clock) (z : ℕ) (s : Store) (l : Lease)
      (acquired duration : Option ℕ) (holder : Option String)
      → l.spec.holder_identity ≡ holder
      → Agrees lock_result
          (run identity (clock.taken ∷ z ∷ []) (s, tested clock.checked l acquired duration holder))
          (check_deadline api clock identity s l acquired duration)
  unfolding run advance check_deadline not_reached
  from_test identity clock z s l none d o h = (refl, refl)
  from_test identity clock z s l (some a) none o h = (refl, refl)
  from_test identity clock z s l (some a) (some d) none h =
      elim (Bool-cases (ltb clock.checked (a + second * d))) [
        | inl live ↦ rw (live, h) (refl, refl)
        | inr over ↦ rw over (written clock.taken (api.update s (taken_at clock.taken identity l)))
      ]
  from_test identity clock z s l (some a) (some d) (some o) h =
      elim (Bool-cases (ltb clock.checked (a + second * d))) [
        | inl live ↦ rw (live, h) (refl, refl)
        | inr over ↦ rw over (written clock.taken (api.update s (taken_at clock.taken identity l)))
      ]

  from_get :
      (identity : String) (clock : Clock) (z : ℕ) (s : Store) (r : Result Lease)
      → Agrees lock_result
          (run identity (clock.checked ∷ clock.taken ∷ z ∷ []) (after_get api s r))
          (take_over api clock identity s r)
  unfolding run advance after_get take_over
  from_get identity clock z s (ok l) =
      from_test identity clock z s l l.spec.acquire_time l.spec.lease_duration_seconds
        l.spec.holder_identity refl
  from_get identity clock z s (err x) = (refl, refl)
  from_get identity clock z s fault = (refl, refl)

  from_create :
      (identity : String) (clock : Clock) (y z : ℕ) (c : Store × Option Error)
      → Agrees lock_result
          (run identity
            (y ∷ clock.checked ∷ clock.taken ∷ z ∷ [])
            (after_create api clock.created c))
          (created api clock identity
            (lease_at api names lease_namespace namespace selector clock.created identity).key
            c)
  unfolding run advance after_create created
  from_create identity clock y z (s, none) = (refl, refl)
  from_create identity clock y z (s, some e) = elim (Bool-cases (is_already_exists e)) [
    | inl old ↦ rw old (
        from_get identity clock z s (
          api.get s
            (lease_at api names lease_namespace namespace selector clock.created identity).key))
    | inr other ↦ rw other (refl, refl)
  ]

  -- A request that runs alone, with the readings of the clock in its six steps, does what LocalLock does
  -- in one: it leaves the same leases and ends with the same result.
  pub run-local_lock :
      (identity : String) (clock : Clock) (x y z : ℕ) (s : Store)
      → Agrees lock_result
          (run identity
            (clock.created ∷ x ∷ y ∷ clock.checked ∷ clock.taken ∷ z ∷ [])
            (s, starting))
          (local_lock api names lease_namespace clock identity namespace selector s)
  unfolding run advance local_lock
  run-local_lock identity clock x y z s =
      from_create identity clock y z (
        api.create s (lease_at api names lease_namespace namespace selector clock.created identity))

  from_delete :
      (c : Store × Option Error) → Agrees unlock_result (after_delete api c) (deleted api c)
  unfolding after_delete deleted
  from_delete (s, none) = (refl, refl)
  from_delete (s, some e) = (refl, refl)

  from_compare :
      (identity : String) (time z : ℕ) (s : Store) (k : Key) (holder : Option String)
      → Agrees unlock_result
          (run identity (z ∷ []) (compared api time identity s k holder))
          (check_holder api identity s k holder)
  unfolding run advance compared check_holder
  from_compare identity time z s k none = (refl, refl)
  from_compare identity time z s k (some o) = elim (Bool-cases (o == identity)) [
    | inl same ↦ rw same (from_delete (api.delete s k))
    | inr other ↦ rw other (refl, refl)
  ]

  from_ask :
      (identity : String) (time z : ℕ) (s : Store) (lease : Lease) (r : Result Lease)
      → Agrees unlock_result
          (run identity (z ∷ []) (after_ask api time identity s lease r))
          (release api identity s lease r)
  unfolding run advance after_ask release
  from_ask identity time z s lease (ok l) =
      from_compare identity time z s l.key l.spec.holder_identity
  from_ask identity time z s lease (err e) = elim (Bool-cases (is_not_found e)) [
    | inl gone ↦ rw gone (refl, refl)
    | inr unread ↦ rw unread (from_compare identity time z s lease.key lease.spec.holder_identity)
  ]
  from_ask identity time z s lease fault = (refl, refl)

  -- A request that gives its lock back alone, in its two steps, does what LocalUnlock does in one: it
  -- leaves the same leases and ends with the same result.
  pub run-local_unlock :
      (identity : String) (time now z : ℕ) (s : Store)
      → Agrees unlock_result
          (run identity (now ∷ z ∷ []) (s, asking time))
          (local_unlock api names lease_namespace now identity namespace selector s)
  unfolding run advance local_unlock
  run-local_unlock identity time now z s =
      let lease = lease_at api names lease_namespace namespace selector now identity in
      from_ask identity time z s lease (api.get s lease.key)
