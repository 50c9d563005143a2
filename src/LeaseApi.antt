-- ===== src/LeaseApi.antt =====
-- The API server's leases, as internal/lock/service.go uses them through client.Client and
-- client.Reader: an interface, with what Kubernetes documents of the calls as laws.
pub mod Memory
use x_pdb.Prelude.{
  ℕ, ◌≤◌, ◌<◌, ◌≡◌, ◌≢◌, ◌⊎◌, Bool, true, false, ◌||◌, Option, none, some, Error, not_found,
  already_exists, msg, wrap, quote, join, Result, ok, err, fault,
}
use x_pdb.Lease.{Key, Lease}

-- A call answers `none` where it succeeds. It may change the state of the server when it fails.
pub record LeaseApi {ℓ} (Store : Type ℓ) : Type ℓ where
  pub create : Store → Lease → Store × Option Error
  pub get : Store → Key → Result Lease
  pub update : Store → Lease → Store × Option Error
  pub delete : Store → Key → Store × Option Error

-- apierrors.IsNotFound and apierrors.IsAlreadyExists look through wrapped and joined errors.
abbrev pub is_not_found : Error → Bool
is_not_found not_found = true
is_not_found already_exists = false
is_not_found (msg s) = false
is_not_found (wrap s e) = is_not_found e
is_not_found (quote s e) = false
is_not_found (join e f) = is_not_found e || is_not_found f

abbrev pub is_already_exists : Error → Bool
is_already_exists not_found = false
is_already_exists already_exists = true
is_already_exists (msg s) = false
is_already_exists (wrap s e) = is_already_exists e
is_already_exists (quote s e) = false
is_already_exists (join e f) = is_already_exists e || is_already_exists f

-- A lease was created under a key that was free.
abbrev pub Created {ℓ} :
    {Store : Type ℓ} → (Store → Key → Option Lease) → Lease → Store → Store → Type 0
Created holds l s t =
    (holds s l.key ≡ none) × ((m : Lease) × (holds t l.key ≡ some m) × (m.spec ≡ l.spec))

-- A lease was written over the one of the same version.
abbrev pub Updated {ℓ} :
    {Store : Type ℓ} → (Store → Key → Option Lease) → Lease → Store → Store → Type 0
Updated holds l s t =
    ((c : Lease) × (holds s l.key ≡ some c) × (c.resource_version ≡ l.resource_version))
    × ((m : Lease) × (holds t l.key ≡ some m) × (m.spec ≡ l.spec))

-- What the server documents. `holds` is the lease that it has under a key. A call that succeeds has
-- changed what is under its key, and an update is accepted only for the version that the server has.
-- A call that fails may have been carried out all the same, as one that times out (NewTimeoutError of
-- the vendored apimachinery), but not a Create that is told that the lease exists.
pub record IsServer {ℓ} {Store : Type ℓ} (api : LeaseApi Store) (holds : Store → Key → Option Lease)
    : Type ℓ where
  pub create_done :
      (s : Store) (l : Lease) → (api.create s l).1 ≡ none → Created holds l s (api.create s l).0
  pub create_exists :
      (s : Store) (l : Lease) (e : Error)
      → (api.create s l).1 ≡ some e
      → is_already_exists e ≡ true
      → holds (api.create s l).0 l.key ≡ holds s l.key
  pub create_unsure :
      (s : Store) (l : Lease) (e : Error)
      → (api.create s l).1 ≡ some e
      → (holds (api.create s l).0 l.key ≡ holds s l.key) ⊎ Created holds l s (api.create s l).0
  pub create_other :
      (s : Store) (l : Lease) (k : Key) → k ≢ l.key → holds (api.create s l).0 k ≡ holds s k
  pub get_done :
      (s : Store) (k : Key) (l : Lease) → api.get s k ≡ ok l → (holds s k ≡ some l) × (l.key ≡ k)
  pub get_missing :
      (s : Store) (k : Key) (e : Error)
      → api.get s k ≡ err e
      → is_not_found e ≡ true
      → holds s k ≡ none
  pub get_returns : (s : Store) (k : Key) → api.get s k ≢ fault
  pub update_done :
      (s : Store) (l : Lease) → (api.update s l).1 ≡ none → Updated holds l s (api.update s l).0
  pub update_unsure :
      (s : Store) (l : Lease) (e : Error)
      → (api.update s l).1 ≡ some e
      → (holds (api.update s l).0 l.key ≡ holds s l.key) ⊎ Updated holds l s (api.update s l).0
  pub update_other :
      (s : Store) (l : Lease) (k : Key) → k ≢ l.key → holds (api.update s l).0 k ≡ holds s k
  pub delete_done :
      (s : Store) (k : Key) → (api.delete s k).1 ≡ none → holds (api.delete s k).0 k ≡ none
  pub delete_unsure :
      (s : Store) (k : Key) (e : Error)
      → (api.delete s k).1 ≡ some e
      → (holds (api.delete s k).0 k ≡ holds s k) ⊎ (holds (api.delete s k).0 k ≡ none)
  pub delete_other : (s : Store) (k j : Key) → j ≢ k → holds (api.delete s k).0 j ≡ holds s j

-- The server answers: it refuses a call for the reasons below only.
pub record IsAvailable {ℓ} {Store : Type ℓ} (api : LeaseApi Store)
    (holds : Store → Key → Option Lease) : Type ℓ where
  pub create_free : (s : Store) (l : Lease) → holds s l.key ≡ none → (api.create s l).1 ≡ none
  pub create_taken :
      (s : Store) (l m : Lease) → holds s l.key ≡ some m → (api.create s l).1 ≡ some already_exists
  pub get_held : (s : Store) (k : Key) (l : Lease) → holds s k ≡ some l → api.get s k ≡ ok l
  pub get_absent : (s : Store) (k : Key) → holds s k ≡ none → api.get s k ≡ err not_found
  pub update_current :
      (s : Store) (l c : Lease)
      → holds s l.key ≡ some c
      → c.resource_version ≡ l.resource_version
      → (api.update s l).1 ≡ none
  pub delete_held :
      (s : Store) (k : Key) (l : Lease) → holds s k ≡ some l → (api.delete s k).1 ≡ none

-- The versions of leases, as the server documents them, whatever a call answers: a lease that was
-- created has a version that no lease had before, and an update leaves the lease as it is or gives it
-- such a version. `revision` is the last one given.
pub record IsVersioned {ℓ} {Store : Type ℓ} (api : LeaseApi Store)
    (holds : Store → Key → Option Lease) (revision : Store → ℕ) : Type ℓ where
  pub create_version :
      (s : Store) (l m : Lease)
      → holds s l.key ≡ none
      → holds (api.create s l).0 l.key ≡ some m
      → (revision s < m.resource_version) × (m.resource_version ≤ revision (api.create s l).0)
  pub update_version :
      (s : Store) (l m : Lease)
      → holds (api.update s l).0 l.key ≡ some m
      → (holds (api.update s l).0 l.key ≡ holds s l.key)
        ⊎ ((revision s < m.resource_version) × (m.resource_version ≤ revision (api.update s l).0))
  pub create_revision : (s : Store) (l : Lease) → revision s ≤ revision (api.create s l).0
  pub update_revision : (s : Store) (l : Lease) → revision s ≤ revision (api.update s l).0
  pub delete_revision : (s : Store) (k : Key) → revision s ≤ revision (api.delete s k).0
