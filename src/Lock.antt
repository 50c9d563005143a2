-- ===== src/Lock.antt =====
-- internal/lock/service.go: the lock on the pods of a selector, in all clusters. `W` is the state that
-- the calls touch; the leases of the local cluster are a part of it.
pub mod Local
pub mod Confirm
pub mod Tasks
pub mod Everywhere
use Prim.Native.String.{◌++◌ as ◌+++◌}
use x_pdb.Prelude.{
  String, Bool, true, false, Option, none, some, List, [], ◌∷◌, if◌then◌else◌, Error, msg, wrap,
  quote, Result, ok, err, fault, ◌>>=◌,
}
use x_pdb.Api.{LabelSelector}
use x_pdb.Proto.{LockRequest, LockResponse, UnlockRequest, UnlockResponse}
use x_pdb.Converters.{convert_label_selector_to_state}
use x_pdb.Lease.{Naming}
use x_pdb.LeaseApi.{LeaseApi}
use x_pdb.ClientPool.{ClientPool}
use x_pdb.Remote.{StateClients, ResultPool, run_tasks, with_client, join_all}
use Local.{Clock, local_lock, local_unlock}

-- The service's fields, less the logger and the API server's clients.
pub record Service (Client : Type 0) : Type 0 where
  pub state_client_pool : ClientPool Client
  pub lease_namespace : String
  pub remote_endpoints : List String

abbrev pub new_service :
    {Client : Type 0} → ClientPool Client → String → List String → Service Client
new_service state_client_pool lease_namespace remote_endpoints = record {
  state_client_pool = state_client_pool;
  lease_namespace = lease_namespace;
  remote_endpoints = remote_endpoints;
}

-- fmt.Errorf("…: %s", r.Error): the text of the response, not its error.
pub refusal : String → Option Error → Error
refusal text none = msg (text +++ ": ")
refusal text (some e) = quote text e

-- The errors of the responses that do not confirm.
pub not_acquired : List LockResponse → List Error
unfolding refusal
not_acquired [] = []
not_acquired (r ∷ results) =
    let errs = not_acquired results in
    if r.acquired then errs else refusal "lock not acquired" r.error ∷ errs

pub not_unlocked : List UnlockResponse → List Error
unfolding refusal
not_unlocked [] = []
not_unlocked (r ∷ results) =
    let errs = not_unlocked results in
    if r.unlocked then errs else refusal "lock was not unlocked" r.error ∷ errs

pub joined : List Error → Result (Unit {0})
unfolding join_all
joined [] = ok tt
joined (e ∷ errs) = err (join_all e errs)

-- fmt.Errorf("…: %w", err) around a failure.
pub labelled : String → Result (Unit {0}) → Result (Unit {0})
labelled text (ok u) = ok u
labelled text (err e) = err (wrap text e)
labelled text fault = fault

module _ {W Client : Type 0} (clients : StateClients W Client) (pool : ResultPool) where
  unfoldable pub lock_task : LockRequest → W → String → W × Result LockResponse
  unfolding with_client
  lock_task req w e = with_client (λ w' cli. clients.lock w' cli req) (clients.pool_get w e)

  unfoldable pub unlock_task : UnlockRequest → W → String → W × Result UnlockResponse
  unfolding with_client
  unlock_task req w e = with_client (λ w' cli. clients.unlock w' cli req) (clients.pool_get w e)

  pub all_acquired : W × List (Result LockResponse) → W × Result (Unit {0})
  unfolding not_acquired joined
  all_acquired (w, rs) = (w, pool.wait rs >>= λ results. joined (not_acquired results))

  pub all_unlocked : W × List (Result UnlockResponse) → W × Result (Unit {0})
  unfolding not_unlocked joined
  all_unlocked (w, rs) = (w, pool.wait rs >>= λ results. joined (not_unlocked results))

  -- `schedule` is the order in which the goroutines run; it holds the remote endpoints.
  pub remote_lock :
      List String → List String → String → String → LabelSelector → W → W × Result (Unit {0})
  unfolding run_tasks lock_task all_acquired
  remote_lock [] schedule lease_holder_identity namespace selector w = (w, ok tt)
  remote_lock (_ ∷ _) schedule lease_holder_identity namespace selector w =
      let req : LockRequest = record {
        lease_holder_identity = lease_holder_identity;
        namespace = namespace;
        label_selector = convert_label_selector_to_state selector;
      } in
      all_acquired (run_tasks (lock_task req) schedule w)

  pub remote_unlock :
      List String → List String → String → String → LabelSelector → W → W × Result (Unit {0})
  unfolding run_tasks unlock_task all_unlocked
  remote_unlock [] schedule lease_holder_identity namespace selector w = (w, ok tt)
  remote_unlock (_ ∷ _) schedule lease_holder_identity namespace selector w =
      let req : UnlockRequest = record {
        lease_holder_identity = lease_holder_identity;
        namespace = namespace;
        label_selector = convert_label_selector_to_state selector;
      } in
      all_unlocked (run_tasks (unlock_task req) schedule w)

  -- The second half of Lock and of Unlock, after what the local cluster answered.
  pub then_remote :
      String → String → (W → W × Result (Unit {0})) → W × Result (Unit {0}) → W × Result (Unit {0})
  unfolding labelled
  then_remote local_text remote_text remote (w, ok u) =
      let r = remote w in (r.0, labelled remote_text r.1)
  then_remote local_text remote_text remote (w, err e) = (w, err (wrap local_text e))
  then_remote local_text remote_text remote (w, fault) = (w, fault)

  module _ (api : LeaseApi W) (names : Naming) (lease_namespace : String)
      (remote_endpoints : List String) where
    -- With no remote endpoints the remote half does nothing, which is the test of Lock and Unlock.
    unfoldable pub lock :
        List String → Clock → String → String → LabelSelector → W → W × Result (Unit {0})
    unfolding then_remote remote_lock
    lock schedule clock lease_holder_identity namespace selector w =
        then_remote "unable to lock local cluster" "unable to lock remote clusters"
          (remote_lock remote_endpoints schedule lease_holder_identity namespace selector)
          (local_lock api names lease_namespace clock lease_holder_identity namespace selector w)

    unfoldable pub unlock :
        List String → Clock → String → String → LabelSelector → W → W × Result (Unit {0})
    unfolding then_remote remote_unlock
    unlock schedule clock lease_holder_identity namespace selector w =
        then_remote "unable to unlock local cluster" "unable to unlock remote clusters"
          (remote_unlock remote_endpoints schedule lease_holder_identity namespace selector)
          (local_unlock api names lease_namespace clock.created lease_holder_identity namespace
            selector w)
