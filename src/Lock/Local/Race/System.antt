-- ===== src/Lock/Local/Race/System.antt =====
-- Many requests over one API server, and the steps that they and the rest of the cluster take.
use x_pdb.Prelude.{ℕ, ◌+◌, ◌≤◌, ◌≡◌, String, Option, put}
use x_pdb.Api.{LabelSelector}
use x_pdb.Lease.{Lease, Key, Naming}
use x_pdb.LeaseApi.{LeaseApi}
use x_pdb.Lock.Local.Safety.{lock_key}
use x_pdb.Lock.Local.Race.{Pc, starting, holding, asking, advance}

-- The time, the leases, and where each request stands.
pub record System (Store : Type 0) : Type 0 where
  pub now : ℕ
  pub store : Store
  pub pc : ℕ → Pc

-- No request has begun.
abbrev pub start : {Store : Type 0} → ℕ → Store → System Store
start now store = record { now = now; store = store; pc = λ i. starting }

module _ {Store : Type 0} (api : LeaseApi Store) (holds : Store → Key → Option Lease)
    (revision : Store → ℕ) (names : Naming) (lease_namespace namespace : String)
    (selector : LabelSelector) (identity_of : ℕ → String) where
  abbrev pub key : Key
  key = lock_key names lease_namespace namespace selector

  -- The system after a step of the request `i`, whose clock says `t`.
  abbrev pub moved : System Store → ℕ → ℕ → System Store
  moved s i t =
      let r =
        advance api names lease_namespace namespace selector (identity_of i) t s.store (s.pc i) in
      record s { store = r.0; pc = put s.pc i r.1 }

  module _ (ahead : ℕ) where
    -- Time passes; a request that is allowed to makes its next call, by a clock of its own, which may be
    -- behind the time, also by more than before, and ahead of it by `ahead` at most; the rest of the
    -- cluster does anything that leaves the lease as it is; a request that obtained the lock begins to give
    -- it back.
    pub data Step (Allowed : System Store → ℕ → Type 0) (s : System Store)
        : System Store → Type 0 where
      wait : (d : ℕ) → Step Allowed s (record s { now = s.now + d })
      act : (i t : ℕ) → t ≤ s.now + ahead → Allowed s i → Step Allowed s (moved s i t)
      elsewhere :
          (t : Store)
          → holds t key ≡ holds s.store key
          → revision s.store ≤ revision t
          → Step Allowed s (record s { store = t })
      unlock :
          (i time : ℕ)
          → s.pc i ≡ holding time
          → Step Allowed s (record s { pc = put s.pc i (asking time) })

    pub data Reach (Allowed : System Store → ℕ → Type 0) (s : System Store)
        : System Store → Type 0 where
      here : Reach Allowed s s
      later : {t u : System Store} → Reach Allowed s t → Step Allowed t u → Reach Allowed s u
