-- ===== src/Lock/Local/Verdict.antt =====
-- How a call of LocalLock or LocalUnlock ends, by the answers of the API server: inversions of the two
-- functions, which the other modules use.
use x_pdb.Prelude.{
  ℕ, ◌+◌, ◌*◌, ◌≤◌, ◌≡◌, refl, ◌⊎◌, inl, inr, String, true, Option, none, some, arith, Error,
  Result, ok, err, fault, Bool-cases, Result-cases, ltb,
}
use x_pdb.Lease.{Lease, Key}
use x_pdb.LeaseApi.{LeaseApi, is_already_exists}
use x_pdb.Lock.Local.{Clock, second, updated, not_reached, check_deadline, take_over, created}

-- The lease ran out at the time `t` or before.
abbrev pub Expired : ℕ → Lease → Type 0
Expired t l =
    (a : ℕ) × (d : ℕ) × (l.spec.acquire_time ≡ some a)
    × (l.spec.lease_duration_seconds ≡ some d)
    × (a + second * d ≤ t)

-- The lease as its new holder writes it.
abbrev pub taken : Clock → String → Lease → Lease
taken clock identity l = record l {
  spec = record l.spec { acquire_time = some clock.taken; holder_identity = some identity };
}

module _ {ℓ} {Store : Type ℓ} (api : LeaseApi Store) (clock : Clock) (identity : String) where
  check_deadline-ok :
      (s : Store) (l : Lease) (acquired duration : Option ℕ)
      → l.spec.acquire_time ≡ acquired
      → l.spec.lease_duration_seconds ≡ duration
      → (check_deadline api clock identity s l acquired duration).1 ≡ ok tt
      → Expired clock.checked l
        × ((api.update s (taken clock identity l)).1 ≡ none)
        × ((check_deadline api clock identity s l acquired duration).0
            ≡ (api.update s (taken clock identity l)).0)
  unfolding check_deadline
  check_deadline-ok s l none d p q h = ground arith
  check_deadline-ok s l (some a) none p q h = ground arith
  check_deadline-ok s l (some a) (some d) p q h =
      ((a, d, p, q, ground arith), ground arith, ground arith)

  pub take_over-ok :
      (s : Store) (r : Result Lease)
      → (take_over api clock identity s r).1 ≡ ok tt
      → (l : Lease) × (r ≡ ok l)
        × Expired clock.checked l
        × ((api.update s (taken clock identity l)).1 ≡ none)
        × ((take_over api clock identity s r).0 ≡ (api.update s (taken clock identity l)).0)
  unfolding take_over
  take_over-ok s fault h = cc
  take_over-ok s (err e) h = cc
  take_over-ok s (ok l) h =
      let (x, u, e) = check_deadline-ok s l _ _ refl refl h in (l, refl, x, u, e)

  -- A lock that is obtained was free, and the lease was created, or it had run out, and the lease was
  -- updated.
  pub created-ok :
      (k : Key) (c : Store × Option Error)
      → (created api clock identity k c).1 ≡ ok tt
      → ((c.1 ≡ none) × ((created api clock identity k c).0 ≡ c.0))
        ⊎ ((e : Error) × (l : Lease) × (c.1 ≡ some e)
            × (is_already_exists e ≡ true)
            × (api.get c.0 k ≡ ok l)
            × Expired clock.checked l
            × ((api.update c.0 (taken clock identity l)).1 ≡ none)
            × ((created api clock identity k c).0 ≡ (api.update c.0 (taken clock identity l)).0))
  unfolding created
  created-ok k (s, none) h = inl (refl, refl)
  created-ok k (s, some e) h = elim (Bool-cases (is_already_exists e)) [
    | inl x ↦
        let (l, g, y, u, p) = take_over-ok s (api.get s k) (ground arith) in
        inr (e, l, refl, x, g, y, u, ground arith)
    | inr x ↦ absurd (ground arith)
  ]

  check_deadline-writes :
      (s : Store) (l : Lease) (acquired duration : Option ℕ)
      → l.spec.acquire_time ≡ acquired
      → l.spec.lease_duration_seconds ≡ duration
      → ((check_deadline api clock identity s l acquired duration).0 ≡ s)
        ⊎ (Expired clock.checked l
            × ((check_deadline api clock identity s l acquired duration).0
                ≡ (api.update s (taken clock identity l)).0))
  unfolding check_deadline updated not_reached
  check_deadline-writes s l none d p q = inl refl
  check_deadline-writes s l (some a) none p q = inl refl
  check_deadline-writes s l (some a) (some d) p q =
      elim (Bool-cases (ltb clock.checked (a + second * d))) [
        | inl live ↦ inl (ground arith)
        | inr over ↦ inr ((a, d, p, q, ground arith), ground arith)
      ]

  -- What a call writes after the Create, whatever it returns: nothing, or it updates a lease that it
  -- found and that had run out.
  pub created-writes :
      (k : Key) (c : Store × Option Error)
      → ((created api clock identity k c).0 ≡ c.0)
        ⊎ ((e : Error) × (l : Lease) × (c.1 ≡ some e)
            × (is_already_exists e ≡ true)
            × (api.get c.0 k ≡ ok l)
            × Expired clock.checked l
            × ((created api clock identity k c).0 ≡ (api.update c.0 (taken clock identity l)).0))
  unfolding created take_over
  created-writes k (s, none) = inl refl
  created-writes k (s, some e) = elim (Bool-cases (is_already_exists e)) [
    | inl x ↦ elim (Result-cases (api.get s k)) [
      | inl (l, g) ↦ elim (check_deadline-writes s l _ _ refl refl) [
        | inl same ↦ inl (rw (x, g) same)
        | inr (y, p) ↦ inr (e, l, refl, x, g, y, rw (x, g) p)
      ]
      | inr (inl (y, g)) ↦ inl (rw (x, g))
      | inr (inr g) ↦ inl (rw (x, g))
    ]
    | inr x ↦ inl (rw x)
  ]
