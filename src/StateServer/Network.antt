-- ===== src/StateServer/Network.antt =====
-- The other clusters as the calls of internal/lock/service.go reach them: the handlers of
-- internal/state/server/server.go at the other end.
pub mod Locking
pub mod Unlocking
pub mod Counting
use x_pdb.Prelude.{◌≡◌, ◌≢◌, String, Option, Result, ok}
use x_pdb.Proto.{LockRequest, LockResponse, UnlockRequest, UnlockResponse}
use x_pdb.Lease.{Naming, Key, Lease}
use x_pdb.LeaseApi.{LeaseApi}
use x_pdb.Remote.{StateClients}
use x_pdb.Lock.Local.{Clock}
use x_pdb.StateServer.{lock, unlock}

-- What carries the calls: each client belongs to one endpoint, a call that returns was served there by
-- the handler, at some time, and nothing but the leases of that endpoint changes. A call that fails may
-- have been served or not.
pub record IsNetwork {W Client S : Type 0} (clients : StateClients W Client)
    (local_holds : W → Key → Option Lease) (api : LeaseApi S) (names : Naming)
    (lease_namespace_of : String → String) (store_of : W → String → S)
    (endpoint_of : Client → String) : Type 0 where
  pub get_target :
      (w : W) (e : String) (c : Client) → (clients.pool_get w e).1 ≡ ok c → endpoint_of c ≡ e
  pub get_stores : (w : W) (e f : String) → store_of (clients.pool_get w e).0 f ≡ store_of w f
  pub get_local :
      (w : W) (e : String) (k : Key) → local_holds (clients.pool_get w e).0 k ≡ local_holds w k
  pub lock_served :
      (w : W) (c : Client) (req : LockRequest) (x : LockResponse)
      → (clients.lock w c req).1 ≡ ok x
      → (clock : Clock) × (lock api names
            (lease_namespace_of (endpoint_of c))
            clock
            (store_of w (endpoint_of c))
            req
          ≡ (store_of (clients.lock w c req).0 (endpoint_of c), ok x))
  pub lock_other :
      (w : W) (c : Client) (req : LockRequest) (f : String)
      → f ≢ endpoint_of c
      → store_of (clients.lock w c req).0 f ≡ store_of w f
  pub lock_local :
      (w : W) (c : Client) (req : LockRequest) (k : Key)
      → local_holds (clients.lock w c req).0 k ≡ local_holds w k
  pub unlock_served :
      (w : W) (c : Client) (req : UnlockRequest) (x : UnlockResponse)
      → (clients.unlock w c req).1 ≡ ok x
      → (clock : Clock) × (unlock api names
            (lease_namespace_of (endpoint_of c))
            clock
            (store_of w (endpoint_of c))
            req
          ≡ (store_of (clients.unlock w c req).0 (endpoint_of c), ok x))
  pub unlock_other :
      (w : W) (c : Client) (req : UnlockRequest) (f : String)
      → f ≢ endpoint_of c
      → store_of (clients.unlock w c req).0 f ≡ store_of w f
  pub unlock_local :
      (w : W) (c : Client) (req : UnlockRequest) (k : Key)
      → local_holds (clients.unlock w c req).0 k ≡ local_holds w k
