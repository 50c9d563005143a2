-- ===== src/StateServer/Network/Locking.antt =====
-- The lock of internal/lock/service.go on all clusters, down to the leases.
use mathlib.Core.List.{Permᴰ}
use x_pdb.Prelude.{◌≡◌, ap, subst, ◌∙◌, sym, String, List, ◌∷◌, Option, ok}
use x_pdb.Api.{LabelSelector}
use x_pdb.Proto.{LockRequest}
use x_pdb.Lease.{Naming, Key, Lease}
use x_pdb.LeaseApi.{LeaseApi, IsServer}
use x_pdb.Remote.{StateClients, ResultPool, IsResultPool, run_tasks}
use x_pdb.Lock
use x_pdb.Lock.{lock_task}
use x_pdb.Lock.Local.{Clock, local_lock}
use x_pdb.Lock.Local.Safety.{lock_key, local_lock-ok, Obtained-holder}
use x_pdb.Lock.Confirm.{AllConfirmed}
use x_pdb.Lock.Tasks.{Everywhere, Everywhere-perm, tasks_make, tasks_same}
use x_pdb.Lock.Everywhere.{lock-ok_iff, lock_world}
use x_pdb.StateServer.Handlers.{HeldBy, request_for, lock-acquires}
use x_pdb.StateServer.Network.{IsNetwork}

module _ {W Client S : Type 0} (clients : StateClients W Client)
    (local_holds : W → Key → Option Lease) (api : LeaseApi S) (holds : S → Key → Option Lease)
    (server : IsServer api holds) (names : Naming) (lease_namespace_of : String → String)
    (store_of : W → String → S) (endpoint_of : Client → String)
    (network : IsNetwork clients local_holds api names lease_namespace_of store_of endpoint_of)
    (pool : ResultPool) (identity namespace : String) (selector : LabelSelector) where
  abbrev req : LockRequest
  req = request_for api holds server names "" identity namespace selector

  abbrev Held : String → S → Type 0
  Held e = HeldBy api holds server names (lease_namespace_of e) identity namespace selector

  -- The lease at an endpoint names the holder.
  abbrev pub HeldAt : String → W → Type 0
  HeldAt e w =
      HeldBy api holds server names (lease_namespace_of e) identity namespace selector
        (store_of w e)

  abbrev pub AllHeld : List String → W → Type 0
  AllHeld = Everywhere HeldAt

  tasks_hold :
      (es : List String) (w : W)
      → AllConfirmed (λ r. r.acquired) (run_tasks (lock_task clients pool req) es w).1
      → AllHeld es (run_tasks (lock_task clients pool req) es w).0
  unfolding lock_task
  tasks_hold =
      tasks_make clients.pool_get (λ w c. clients.lock w c req) (λ r. r.acquired) endpoint_of HeldAt
        network.get_target (λ w e f h. subst (Held f) (sym (network.get_stores w e f)) h)
        (λ w c x e a.
          let (clock, served) = network.lock_served w c req x e in
          let held =
            lock-acquires api holds server names (lease_namespace_of (endpoint_of c)) clock
              (store_of w (endpoint_of c)) identity namespace selector x (ap (λ p. p.1) served) a in
          subst (Held (endpoint_of c)) (ap (λ p. p.0) served) held)
        (λ w c f n h. subst (Held f) (sym (network.lock_other w c req f n)) h)

  tasks_local :
      (k : Key) (es : List String) (w : W)
      → local_holds (run_tasks (lock_task clients pool req) es w).0 k ≡ local_holds w k
  unfolding lock_task
  tasks_local k =
      tasks_same clients.pool_get (λ w c. clients.lock w c req) (λ w. local_holds w k)
        (λ w e. network.get_local w e k) (λ w c. network.lock_local w c req k)

  module _ (law : IsResultPool pool) (local_api : LeaseApi W)
      (local_server : IsServer local_api local_holds) (lease_namespace : String) where
    -- Where the local cluster gives the lock, its lease names the caller after Lock, also if a remote
    -- cluster refuses and Lock fails.
    pub lock-HoldsHere :
        (endpoint : String) (endpoints schedule : List String) (clock : Clock) (w : W)
        → (local_lock local_api names lease_namespace clock identity namespace selector w).1 ≡ ok tt
        → HeldBy local_api local_holds local_server names lease_namespace identity namespace
            selector
            (Lock.lock clients pool local_api names lease_namespace
              (endpoint ∷ endpoints)
              schedule
              clock
              identity
              namespace
              selector
              w).0
    lock-HoldsHere endpoint endpoints schedule clock w here =
        let at =
          lock_world clients pool law local_api names lease_namespace endpoint endpoints schedule
            clock identity namespace selector w here in
        let w1 =
          (local_lock local_api names lease_namespace clock identity namespace selector w).0 in
        let k = lock_key names lease_namespace namespace selector in
        let (m, h, o) =
          local_lock-ok local_api local_holds local_server names lease_namespace identity namespace
            selector clock w here in
        (
          m,
          ap (λ v. local_holds v k) at ∙ tasks_local k schedule w1 ∙ h,
          Obtained-holder clock identity (local_holds w k) m.spec o,
        )

    -- Where Lock succeeds, the lease of the selector names the caller as its holder in the local cluster
    -- and in every remote cluster, in whatever order the goroutines ran, over a network that is what
    -- `IsNetwork` says.
    pub lock-HoldsEverywhere :
        (endpoint : String) (endpoints schedule : List String)
        → Permᴰ schedule (endpoint ∷ endpoints)
        → (clock : Clock) (w : W)
        → (Lock.lock clients pool local_api names lease_namespace
            (endpoint ∷ endpoints)
            schedule
            clock
            identity
            namespace
            selector
            w).1
          ≡ ok tt
        → HeldBy local_api local_holds local_server names lease_namespace identity namespace
            selector
            (Lock.lock clients pool local_api names lease_namespace
              (endpoint ∷ endpoints)
              schedule
              clock
              identity
              namespace
              selector
              w).0
          × AllHeld
              (endpoint ∷ endpoints)
              (Lock.lock clients pool local_api names lease_namespace
                (endpoint ∷ endpoints)
                schedule
                clock
                identity
                namespace
                selector
                w).0
    lock-HoldsEverywhere endpoint endpoints schedule p clock w done =
        let (here, there) =
          (lock-ok_iff clients pool law local_api names lease_namespace endpoint endpoints schedule
              clock identity namespace selector w).0
            done in
        let at =
          lock_world clients pool law local_api names lease_namespace endpoint endpoints schedule
            clock identity namespace selector w here in
        let w1 =
          (local_lock local_api names lease_namespace clock identity namespace selector w).0 in
        (
          lock-HoldsHere endpoint endpoints schedule clock w here,
          subst (AllHeld (endpoint ∷ endpoints)) (sym at) (
              Everywhere-perm HeldAt schedule (endpoint ∷ endpoints)
                (run_tasks (lock_task clients pool req) schedule w1).0 p
                (tasks_hold schedule w1 there)),
        )
