-- ===== src/Remote.antt =====
-- How internal/lock/service.go and internal/pdb/service.go call the state servers of the other
-- clusters: one goroutine for each endpoint, whose results are gathered by a pool.
pub mod Pool
use mathlib.Core.List.{Perm}
use x_pdb.Prelude.{◌≡◌, ◌≢◌, String, List, [], ◌∷◌, map, Error, join, msg, Result, ok, err, fault}
use x_pdb.Proto.{
  LockRequest, LockResponse, UnlockRequest, UnlockResponse, GetStateRequest, GetStateResponse,
}

-- The client pool and the generated clients. `W` is the state of all that the calls touch: the pool,
-- the network and the remote clusters. A call that runs into its timeout answers an error.
pub record StateClients (W Client : Type 0) : Type 0 where
  pub pool_get : W → String → W × Result Client
  pub lock : W → Client → LockRequest → W × Result LockResponse
  pub unlock : W → Client → UnlockRequest → W × Result UnlockResponse
  pub get_state : W → Client → GetStateRequest → W × Result GetStateResponse

-- github.com/sourcegraph/conc/pool, as x-pdb configures it: Wait returns the results of the tasks in
-- the order in which they end, or an error if any task failed.
pub record ResultPool : Type 1 where
  pub wait : {A : Type 0} → List (Result A) → Result (List A)

pub record IsResultPool (pool : ResultPool) : Type 1 where
  pub wait_done :
      {A : Type 0} (rs : List (Result A)) (xs : List A) → pool.wait rs ≡ ok xs → Perm rs (map ok xs)
  pub wait_all : {A : Type 0} (xs : List A) → (ys : List A) × (pool.wait (map ok xs) ≡ ok ys)

module _ {W A : Type 0} where
  -- The tasks of the endpoints, in the order in which they run. A task works on the pool of clients
  -- and on one remote cluster, so that each is taken as one step.
  unfoldable pub run_tasks : (W → String → W × Result A) → List String → W → W × List (Result A)
  run_tasks task [] w = (w, [])
  run_tasks task (e ∷ es) w =
      let (w', r) = task w e in let (w'', rs) = run_tasks task es w' in (w'', r ∷ rs)

  -- The body of a task: the client of the endpoint, then the call.
  unfoldable pub with_client :
      {Client : Type 0} → (W → Client → W × Result A) → W × Result Client → W × Result A
  with_client call (w, ok cli) = call w cli
  with_client call (w, err e) = (w, err e)
  with_client call (w, fault) = (w, fault)

-- errors.Join of a list that is not empty.
unfoldable pub join_all : Error → List Error → Error
join_all e [] = e
join_all e (f ∷ fs) = join e (join_all f fs)
