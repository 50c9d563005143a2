-- ===== src/StateServer/Network/Unlocking.antt =====
-- The unlock of internal/lock/service.go on all clusters, down to the leases.
use mathlib.Core.List.{Permᴰ}
use x_pdb.Prelude.{◌≡◌, none, ap, subst, ◌∙◌, sym, String, List, ◌∷◌, Option, Result, ok}
use x_pdb.Api.{LabelSelector}
use x_pdb.Proto.{UnlockRequest}
use x_pdb.Lease.{Naming, Key, Lease}
use x_pdb.LeaseApi.{LeaseApi, IsServer}
use x_pdb.Remote.{StateClients, ResultPool, IsResultPool, run_tasks}
use x_pdb.Lock
use x_pdb.Lock.{unlock_task}
use x_pdb.Lock.Local.{Clock, local_unlock}
use x_pdb.Lock.Local.Safety.{lock_key}
use x_pdb.Lock.Local.Unlock.{local_unlock-ok}
use x_pdb.Lock.Confirm.{AllConfirmed}
use x_pdb.Lock.Tasks.{Everywhere, Everywhere-perm, tasks_make, tasks_same}
use x_pdb.Lock.Everywhere.{unlock-ok_iff, unlock_world}
use x_pdb.StateServer.Handlers.{Free, unlock_request_for, unlock-frees}
use x_pdb.StateServer.Network.{IsNetwork}

module _ {W Client S : Type 0} (clients : StateClients W Client)
    (local_holds : W → Key → Option Lease) (api : LeaseApi S) (holds : S → Key → Option Lease)
    (server : IsServer api holds) (names : Naming) (lease_namespace_of : String → String)
    (store_of : W → String → S) (endpoint_of : Client → String)
    (network : IsNetwork clients local_holds api names lease_namespace_of store_of endpoint_of)
    (pool : ResultPool) (identity namespace : String) (selector : LabelSelector) where
  abbrev req : UnlockRequest
  req = unlock_request_for api holds server names "" identity namespace selector

  abbrev FreeIn : String → S → Type 0
  FreeIn e = Free api holds server names (lease_namespace_of e) namespace selector

  -- There is no lease at an endpoint.
  abbrev pub FreeAt : String → W → Type 0
  FreeAt e w = Free api holds server names (lease_namespace_of e) namespace selector (store_of w e)

  abbrev pub AllFree : List String → W → Type 0
  AllFree = Everywhere FreeAt

  tasks_free :
      (es : List String) (w : W)
      → AllConfirmed (λ r. r.unlocked) (run_tasks (unlock_task clients pool req) es w).1
      → AllFree es (run_tasks (unlock_task clients pool req) es w).0
  unfolding unlock_task
  tasks_free =
      tasks_make clients.pool_get (λ w c. clients.unlock w c req) (λ r. r.unlocked) endpoint_of
        FreeAt network.get_target (λ w e f h. subst (FreeIn f) (sym (network.get_stores w e f)) h)
        (λ w c x e a.
          let (clock, served) = network.unlock_served w c req x e in
          let gone =
            unlock-frees api holds server names (lease_namespace_of (endpoint_of c)) clock
              (store_of w (endpoint_of c)) identity namespace selector x (ap (λ p. p.1) served) a in
          subst (FreeIn (endpoint_of c)) (ap (λ p. p.0) served) gone)
        (λ w c f n h. subst (FreeIn f) (sym (network.unlock_other w c req f n)) h)

  tasks_local :
      (k : Key) (es : List String) (w : W)
      → local_holds (run_tasks (unlock_task clients pool req) es w).0 k ≡ local_holds w k
  unfolding unlock_task
  tasks_local k =
      tasks_same clients.pool_get (λ w c. clients.unlock w c req) (λ w. local_holds w k)
        (λ w e. network.get_local w e k) (λ w c. network.unlock_local w c req k)

  module _ (law : IsResultPool pool) (local_api : LeaseApi W)
      (local_server : IsServer local_api local_holds) (lease_namespace : String) where
    abbrev pub unlocking : String → List String → List String → Clock → W → W × Result (Unit {0})
    unlocking endpoint endpoints schedule clock w =
        Lock.unlock clients pool local_api names lease_namespace (endpoint ∷ endpoints) schedule
          clock identity namespace selector w

    -- Where Unlock succeeds, no cluster has a lease for the selector any more, neither the local one nor
    -- a remote one, in whatever order the goroutines ran, over a network that is what `IsNetwork` says.
    pub unlock-FreesEverywhere :
        (endpoint : String) (endpoints schedule : List String)
        → Permᴰ schedule (endpoint ∷ endpoints)
        → (clock : Clock) (w : W) → (unlocking endpoint endpoints schedule clock w).1 ≡ ok tt
        → (local_holds
              (unlocking endpoint endpoints schedule clock w).0
              (lock_key names lease_namespace namespace selector)
            ≡ none)
          × AllFree (endpoint ∷ endpoints) (unlocking endpoint endpoints schedule clock w).0
    unlock-FreesEverywhere endpoint endpoints schedule p clock w done =
        let (here, there) =
          (unlock-ok_iff clients pool law local_api names lease_namespace endpoint endpoints
              schedule clock identity namespace selector w).0
            done in
        let at =
          unlock_world clients pool law local_api names lease_namespace endpoint endpoints schedule
            clock identity namespace selector w here in
        let w1 =
          (local_unlock local_api names lease_namespace clock.created identity namespace selector
            w).0 in
        let k = lock_key names lease_namespace namespace selector in
        let gone =
          local_unlock-ok local_api local_holds local_server names lease_namespace identity
            namespace selector clock.created w here in
        (
          ap (λ v. local_holds v k) at ∙ tasks_local k schedule w1 ∙ gone,
          subst (AllFree (endpoint ∷ endpoints)) (sym at) (
              Everywhere-perm FreeAt schedule (endpoint ∷ endpoints)
                (run_tasks (unlock_task clients pool req) schedule w1).0 p
                (tasks_free schedule w1 there)),
        )
