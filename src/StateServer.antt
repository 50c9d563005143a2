-- ===== src/StateServer.antt =====
-- internal/state/server/server.go: the three handlers of the state server, and what the recovery
-- interceptor makes of a panic in one.
pub mod Handlers
pub mod Network
use x_pdb.Prelude.{
  ℕ, String, Bool, true, false, Option, none, some, Error, msg, Result, ok, err, fault,
}
use x_pdb.Proto.{
  LockRequest, LockResponse, UnlockRequest, UnlockResponse, GetStateRequest, GetStateResponse,
}
use x_pdb.Converters.{convert_label_selector_to_meta_v1}
use x_pdb.Lease.{Naming}
use x_pdb.LeaseApi.{LeaseApi}
use x_pdb.Lock
use x_pdb.Lock.Local.{Clock, local_lock, local_unlock}
use x_pdb.Pdb
use x_pdb.Pdb.{Cluster, Counts, get_pod_counts}

-- The server and the handlers that it serves, less the logger.
pub record Server (Client : Type 0) : Type 0 where
  pub pdb_service : Pdb.Service Client
  pub lock_service : Lock.Service Client
  pub port : ℕ
  pub certs_dir : String

abbrev pub new_server :
    {Client : Type 0} → Pdb.Service Client → Lock.Service Client → ℕ → String → Server Client
new_server pdb_service lock_service port certs_dir = record {
  pdb_service = pdb_service;
  lock_service = lock_service;
  port = port;
  certs_dir = certs_dir;
}

lock_response : Result (Unit {0}) → Result LockResponse
lock_response (ok u) = ok (record { acquired = true; error = none })
lock_response (err e) = ok (record { acquired = false; error = some e })
lock_response fault = fault

unlock_response : Result (Unit {0}) → Result UnlockResponse
unlock_response (ok u) = ok (record { unlocked = true; error = none })
unlock_response (err e) = ok (record { unlocked = false; error = some e })
unlock_response fault = fault

state_response : Result Counts → Result GetStateResponse
state_response (ok c) = ok (record { desired_healthy = c.expected; healthy = c.healthy })
state_response (err e) = err (msg "unable to get pod counts")
state_response fault = fault

-- recovery.UnaryServerInterceptor, with the handler that Start gives it.
unfoldable pub recovered {ℓ} : {A : Type ℓ} → Result A → Result A
recovered (ok a) = ok a
recovered (err e) = err e
recovered fault = err (msg "recovered from panic")

module _ {S : Type 0} (api : LeaseApi S) (names : Naming) (lease_namespace : String) where
  unfoldable pub lock : Clock → S → LockRequest → S × Result LockResponse
  unfolding lock_response
  lock clock s req =
      let label_selector = convert_label_selector_to_meta_v1 req.label_selector in
      let r =
        local_lock api names lease_namespace clock req.lease_holder_identity req.namespace
          label_selector s in
      (r.0, lock_response r.1)

  unfoldable pub unlock : Clock → S → UnlockRequest → S × Result UnlockResponse
  unfolding unlock_response
  unlock clock s req =
      let label_selector = convert_label_selector_to_meta_v1 req.label_selector in
      let r =
        local_unlock api names lease_namespace clock.created req.lease_holder_identity req.namespace
          label_selector s in
      (r.0, unlock_response r.1)

unfoldable pub get_state : Cluster → GetStateRequest → Result GetStateResponse
unfolding state_response
get_state cluster req =
    let label_selector = convert_label_selector_to_meta_v1 req.label_selector in
    state_response (get_pod_counts cluster req.namespace label_selector)
