-- ===== src/Lock/Local/Race.antt =====
-- LocalLock and LocalUnlock of internal/lock/service.go call by call: many requests over one API server,
-- whose calls for the lease of one selector interleave in any order.
pub mod Alone
pub mod System
pub mod Facts
pub mod Writes
pub mod Calls
pub mod Exclusion
pub mod Onward
use x_pdb.Prelude.{
  ℕ, ◌+◌, ◌*◌, ◌≡◌, String, Bool, true, false, Option, none, some, ◌==◌, if◌then◌else◌, ltb, eqb,
  Error, msg, wrap, Result, ok, err, fault,
}
use x_pdb.Api.{LabelSelector}
use x_pdb.Lease.{
  LeaseSpec, Lease, Key, Naming, create_lease_for_selector, create_lease_name_for_selector,
}
use x_pdb.LeaseApi.{LeaseApi, is_not_found, is_already_exists}
use x_pdb.Lock.Local.{second}

-- Where a request stands. A number is the time that the request wrote, or is about to write, to the
-- lease; a lease is the one that it read.
pub data Pc : Type 0 where
  starting : Pc
  creating : ℕ → Pc
  reading : Pc
  found : Lease → Pc
  expired : Lease → Pc
  updating : Lease → ℕ → Pc
  holding : ℕ → Pc
  refused : Result (Unit {0}) → Pc
  asking : ℕ → Pc
  deleting : ℕ → Key → Pc
  released : Result (Unit {0}) → Pc

-- The lease that is written by a request that takes over.
abbrev pub taken_at : ℕ → String → Lease → Lease
taken_at time identity lease = record lease {
  spec = record lease.spec { acquire_time = some time; holder_identity = some identity };
}

-- The test of the deadline, with the log line's reading of the holder.
abbrev pub tested : ℕ → Lease → Option ℕ → Option ℕ → Option String → Pc
tested now lease none duration holder = refused fault
tested now lease (some acquired) none holder = refused fault
tested now lease (some acquired) (some duration) holder =
    if ltb now (acquired + second * duration)
    then elim holder [
      | none ↦ refused fault
      | some _ ↦ refused (err (msg "lease deadline not reached"))
    ]
    else expired lease

module _ {ℓ} {Store : Type ℓ} (api : LeaseApi Store) where
  pub after_create : ℕ → Store × Option Error → Store × Pc
  after_create time (s, none) = (s, holding time)
  after_create time (s, some e) =
      if is_already_exists e
      then (s, reading)
      else (s, refused (err (wrap "failed to acquire lease" e)))

  pub after_get : Store → Result Lease → Store × Pc
  after_get s (ok lease) = (s, found lease)
  after_get s (err e) = (s, refused (err (wrap "unable to take over lease" e)))
  after_get s fault = (s, refused fault)

  pub after_update : ℕ → Store × Option Error → Store × Pc
  after_update time (s, none) = (s, holding time)
  after_update time (s, some e) = (s, refused (err (wrap "unable to update lease" e)))

  -- The comparison of the holder, before Delete.
  pub compared : ℕ → String → Store → Key → Option String → Store × Pc
  compared time identity s k none = (s, released fault)
  compared time identity s k (some holder) = if holder == identity then (s, deleting time k) else (
    s,
    released (err (msg "holder identity does not match. Someone else has taken over the lease.")),
  )

  pub after_ask : ℕ → String → Store → Lease → Result Lease → Store × Pc
  unfolding compared
  after_ask time identity s lease fault = (s, released fault)
  after_ask time identity s lease (ok l) = compared time identity s l.key l.spec.holder_identity
  after_ask time identity s lease (err e) =
      if is_not_found e
      then (s, released (ok tt))
      else compared time identity s lease.key lease.spec.holder_identity

  pub after_delete : Store × Option Error → Store × Pc
  after_delete (s, none) = (s, released (ok tt))
  after_delete (s, some e) = (s, released (err e))

  module _ (names : Naming) (lease_namespace namespace : String) (selector : LabelSelector) where
    abbrev pub lease_at : ℕ → String → Lease
    lease_at time identity =
        create_lease_for_selector names time lease_namespace identity namespace selector

    -- One step of a request: one call of the API server, or one reading of its clock. `now` is what
    -- that clock says in the step.
    unfoldable pub advance : String → ℕ → Store → Pc → Store × Pc
    unfolding after_create after_get after_update after_ask after_delete create_lease_for_selector
    advance identity now s starting = (s, creating now)
    advance identity now s (creating time) =
        after_create time (api.create s (lease_at time identity))
    advance identity now s reading = after_get s (api.get s (lease_at now identity).key)
    advance identity now s (found lease) = (
      s,
      tested now lease lease.spec.acquire_time lease.spec.lease_duration_seconds
          lease.spec.holder_identity,
    )
    advance identity now s (expired lease) = (s, updating lease now)
    advance identity now s (updating lease time) =
        after_update time (api.update s (taken_at time identity lease))
    advance identity now s (holding time) = (s, holding time)
    advance identity now s (refused r) = (s, refused r)
    advance identity now s (asking time) =
        let lease = lease_at now identity in after_ask time identity s lease (api.get s lease.key)
    advance identity now s (deleting time k) = after_delete (api.delete s k)
    advance identity now s (released r) = (s, released r)
