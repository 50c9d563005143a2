-- ===== src/Controller/Leftover.antt =====
-- What becomes of the lock of this cluster where a remote one does not give it.
use x_pdb.Prelude.{
  ◌≡◌, subst, sym, String, true, false, List, [], ◌∷◌, Option, some, Error, ok, err,
}
use x_pdb.Api.{Pod, Xpdb}
use x_pdb.Lease.{Key, Lease}
use x_pdb.LeaseApi.{LeaseApi, IsServer}
use x_pdb.Lock.Local.{local_lock}
use x_pdb.Remote.{IsResultPool}
use x_pdb.StateServer.Handlers.{HeldBy}
use x_pdb.StateServer.Network.{IsNetwork}
use x_pdb.StateServer.Network.Locking.{lock-HoldsHere}
use x_pdb.Webhook.{Request, Response, Services, State, Config, Admission, IsAdmission}
use x_pdb.Webhook.Handle.{is_set, is_ignored, decode_pod, handle}
use x_pdb.Webhook.Handle.Admitted.{identity_of}
use x_pdb.Webhook.Handle.Locking.{handle_unlocked}
use x_pdb.Endpoints.{parse_endpoints}
use x_pdb.Controller.{Outside, Flags, pod_validation_webhook, services, webhook}
use x_pdb.Controller.Admission.{started-services}

module _ {W C D S : Type 0} (outside : Outside W C D) (local_holds : W → Key → Option Lease)
    (local_server : IsServer outside.leases local_holds) (law : IsResultPool outside.result_pool)
    (api : LeaseApi S) (holds : S → Key → Option Lease) (server : IsServer api holds)
    (lease_namespace_of : String → String) (store_of : W → String → S) (endpoint_of : C → String)
    (network : IsNetwork outside.state_clients local_holds api outside.names lease_namespace_of
      store_of endpoint_of)
    (endpoint : String) (endpoints : List String) where
  -- The lease of a budget in this cluster names the holder.
  abbrev pub HeldHere : String → String → Xpdb → W → Type 0
  HeldHere lease_namespace identity xpdb w =
      HeldBy outside.leases local_holds local_server outside.names lease_namespace identity
        xpdb.namespace xpdb.spec.selector w

  taken_here :
      (flags : Flags) (identity : String) (xpdb : Xpdb) (w : W)
      → (local_lock outside.leases outside.names flags.lease_namespace
          (outside.clock w)
          identity
          xpdb.namespace
          xpdb.spec.selector
          w).1
        ≡ ok tt
      → HeldHere flags.lease_namespace identity xpdb
          ((services outside (pod_validation_webhook flags (endpoint ∷ endpoints))).lock w identity
            xpdb.namespace xpdb.spec.selector).0
  unfolding services
  taken_here flags identity xpdb w here =
      lock-HoldsHere outside.state_clients local_holds api holds server outside.names
        lease_namespace_of store_of endpoint_of network outside.result_pool identity xpdb.namespace
        xpdb.spec.selector law outside.leases local_server flags.lease_namespace endpoint endpoints
        (outside.schedule w) (outside.clock w) w here

  -- Where this cluster gives the lock to a request and Lock fails all the same, as it does where a
  -- remote cluster refuses, the webhook of a controller that has started refuses the request, and
  -- afterwards the lease of the budget in this cluster names the refused request. This is for a
  -- pod that is read, not ignored, without pending pre-activities and covered by exactly one active
  -- budget, and assumes of the network what `IsNetwork` says.
  pub refused-HeldHere :
      (flags : Flags) (h : Config) (given : Services W)
      → parse_endpoints outside.texts flags.remote_endpoints ≡ (endpoint ∷ endpoints, [])
      → webhook outside flags ≡ some (h, given)
      → (admission : Admission) → IsAdmission admission
      → (request : Request) (uuid : String) (st : State W) (pod : Pod) (xpdb : Xpdb) (e : Error)
      → decode_pod given st request ≡ ok pod
      → is_ignored pod ≡ false
      → let q = given.preactivities st.world pod in
        q.2 ≡ ok true
        → given.get_xpdbs_for_pod q.0 q.1 ≡ ok (xpdb ∷ [])
        → is_set xpdb.spec.suspend ≡ false
        → let identity = identity_of given h q.1 uuid in
          (local_lock outside.leases outside.names flags.lease_namespace
              (outside.clock q.0)
              identity
              xpdb.namespace
              xpdb.spec.selector
              q.0).1
            ≡ ok tt
          → (given.lock q.0 identity xpdb.namespace xpdb.spec.selector).1 ≡ err e
          → HeldHere flags.lease_namespace identity xpdb
              (handle given admission h request uuid st).0.world
            × ((r : Response) × ((handle given admission h request uuid st).1 ≡ ok r)
                × (r.allowed ≡ false))
  refused-HeldHere flags h given listed started admission coded request uuid st pod xpdb e readable
        ours ready covered active here failed =
      let q = given.preactivities st.world pod in
      let identity = identity_of given h q.1 uuid in
      let (same, answer) =
        handle_unlocked given h admission coded request uuid st pod xpdb readable ours ready covered
          active e failed in
      let held =
        subst
          (λ (g : Services W).
            HeldHere flags.lease_namespace identity xpdb
              (g.lock q.0 identity xpdb.namespace xpdb.spec.selector).0)
          (started-services outside endpoint endpoints flags h given listed started)
          (taken_here flags identity xpdb q.0 here) in
      (subst (HeldHere flags.lease_namespace identity xpdb) (sym same) held, answer)
