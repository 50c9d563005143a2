-- ===== src/Lock/Local.antt =====
-- LocalLock and LocalUnlock of internal/lock/service.go: the lock on one cluster.
pub mod Verdict
pub mod Safety
pub mod Progress
pub mod Unlock
pub mod Filled
pub mod Race
use x_pdb.Prelude.{
  ℕ, ◌+◌, ◌*◌, String, Bool, true, false, Option, none, some, ◌==◌, if◌then◌else◌, ltb, Error, msg,
  wrap, Result, ok, err, fault,
}
use x_pdb.Api.{LabelSelector}
use x_pdb.Lease.{LeaseSpec, Lease, Key, Naming, create_lease_for_selector}
use x_pdb.LeaseApi.{LeaseApi, is_not_found, is_already_exists}

-- The readings of the clock in one call: for the new lease, for the test of the deadline, and for the
-- lease that is taken over.
pub record Clock : Type 0 where
  pub created : ℕ
  pub checked : ℕ
  pub taken : ℕ

-- time.Second
abbrev pub second : ℕ
second = 1_000_000

module _ {ℓ} {Store : Type ℓ} (api : LeaseApi Store) where
  pub updated : Store × Option Error → Store × Result (Unit {0})
  updated (s, none) = (s, ok tt)
  updated (s, some e) = (s, err (wrap "unable to update lease" e))

  -- The log line reads the holder through its pointer.
  pub not_reached : Store → Option String → Store × Result (Unit {0})
  not_reached s none = (s, fault)
  not_reached s (some _) = (s, err (msg "lease deadline not reached"))

  -- A lease with no time or no duration is read through a nil pointer.
  pub check_deadline :
      Clock → String → Store → Lease → Option ℕ → Option ℕ → Store × Result (Unit {0})
  unfolding updated not_reached
  check_deadline clock identity s lease none duration = (s, fault)
  check_deadline clock identity s lease (some acquired) none = (s, fault)
  check_deadline clock identity s lease (some acquired) (some duration) =
      let deadline = acquired + second * duration in
      let spec = record lease.spec {
        acquire_time = some clock.taken;
        holder_identity = some identity;
      } in
      if ltb clock.checked deadline
      then not_reached s lease.spec.holder_identity
      else updated (api.update s (record lease { spec = spec }))

  pub take_over : Clock → String → Store → Result Lease → Store × Result (Unit {0})
  unfolding check_deadline
  take_over clock identity s fault = (s, fault)
  take_over clock identity s (err e) = (s, err (wrap "unable to take over lease" e))
  take_over clock identity s (ok lease) =
      check_deadline clock identity s lease lease.spec.acquire_time
        lease.spec.lease_duration_seconds

  pub created : Clock → String → Key → Store × Option Error → Store × Result (Unit {0})
  unfolding take_over
  created clock identity k (s, none) = (s, ok tt)
  created clock identity k (s, some e) =
      if is_already_exists e
      then take_over clock identity s (api.get s k)
      else (s, err (wrap "failed to acquire lease" e))

  pub deleted : Store × Option Error → Store × Result (Unit {0})
  deleted (s, none) = (s, ok tt)
  deleted (s, some e) = (s, err e)

  -- The comparison of the holder, read through its pointer, and the call of Delete.
  pub check_holder : String → Store → Key → Option String → Store × Result (Unit {0})
  unfolding deleted
  check_holder identity s k none = (s, fault)
  check_holder identity s k (some holder) =
      if holder == identity
      then deleted (api.delete s k)
      else (s, err (msg "holder identity does not match. Someone else has taken over the lease."))

  -- Get fills the lease in only where it succeeds. Where it fails for another reason than that the
  -- lease is missing, the function goes on with the lease that it built itself.
  pub release : String → Store → Lease → Result Lease → Store × Result (Unit {0})
  unfolding check_holder
  release identity s lease fault = (s, fault)
  release identity s lease (ok found) = check_holder identity s found.key found.spec.holder_identity
  release identity s lease (err e) =
      if is_not_found e
      then (s, ok tt)
      else check_holder identity s lease.key lease.spec.holder_identity

  module _ (names : Naming) (lease_namespace : String) where
    unfoldable pub local_lock :
        Clock → String → String → LabelSelector → Store → Store × Result (Unit {0})
    unfolding created create_lease_for_selector
    local_lock clock lease_holder_identity namespace selector s =
        let lease =
          create_lease_for_selector names clock.created lease_namespace lease_holder_identity
            namespace selector in
        created clock lease_holder_identity lease.key (api.create s lease)

    unfoldable pub local_unlock :
        ℕ → String → String → LabelSelector → Store → Store × Result (Unit {0})
    unfolding release create_lease_for_selector
    local_unlock now lease_holder_identity namespace selector s =
        let lease =
          create_lease_for_selector names now lease_namespace lease_holder_identity namespace
            selector in
        release lease_holder_identity s lease (api.get s lease.key)
