-- ===== src/Controller/Admission.antt =====
-- What is known of all clusters when the webhook of a running controller admits the deletion of a pod
-- that a budget covers.
use mathlib.Core.List.{Permᴰ}
use x_pdb.Prelude.{
  ◌≡◌, ap, subst, inl, inr, ◌∙◌, sym, String, true, false, List, [], ◌∷◌, Option, some, some_inj,
  ok, arith,
}
use x_pdb.Api.{Pod, Xpdb}
use x_pdb.Proto.{GetStateResponse}
use x_pdb.Lease.{Key, Lease}
use x_pdb.LeaseApi.{LeaseApi, IsServer}
use x_pdb.Remote.{IsResultPool}
use x_pdb.Pdb
use x_pdb.Pdb.Granted.{Room}
use x_pdb.StateServer.Handlers.{HeldBy}
use x_pdb.StateServer.Network.{IsNetwork}
use x_pdb.StateServer.Network.Locking.{AllHeld, lock-HoldsEverywhere}
use x_pdb.StateServer.Network.Counting.{IsCounting, AllCounted, can_pod_be_disrupted-Counted}
use x_pdb.Webhook.{Request, Response, Services, State, Config, Admission, IsAdmission}
use x_pdb.Webhook.Handle.{is_set, is_ignored, decode_pod, handle}
use x_pdb.Webhook.Handle.Admitted.{
  Approved, Cleared, Uncovered, Unguarded, AdmittedAs, AdmittedAs, only, undecoded, identity_of,
}
use x_pdb.Webhook.Handle.Verdict.{handle-AdmitsIff}
use x_pdb.Endpoints.{parse_endpoints}
use x_pdb.Controller.{Outside, Flags, pod_validation_webhook, services, assembled, webhook}

-- What an admission means for a pod that is read, not ignored and covered by one active budget.
module _ {W : Type 0} (given : Services W) (h : Config) where
  active_clears :
      (w : W) (pod : Pod) (xpdb : Xpdb) (uuid : String)
      → is_set xpdb.spec.suspend ≡ false
      → Unguarded given h w pod xpdb uuid
      → Cleared given h w pod xpdb uuid
  active_clears w pod xpdb uuid active (inl s) = absurd (ground arith)
  active_clears w pod xpdb uuid active (inr (f, c)) = c

  admitted-Cleared :
      (st : State W) (uuid : String) (pod : Pod) (xpdb : Xpdb)
      → is_ignored pod ≡ false
      → let q = given.preactivities st.world pod in
        given.get_xpdbs_for_pod q.0 q.1 ≡ ok (xpdb ∷ [])
        → is_set xpdb.spec.suspend ≡ false
        → AdmittedAs given h st uuid (ok pod)
        → Cleared given h q.0 q.1 xpdb uuid
  admitted-Cleared st uuid pod xpdb ours covered active admitted =
      let q = given.preactivities st.world pod in
      let (ready, u) = undecoded given h st uuid pod ours admitted in
      active_clears q.0 q.1 xpdb uuid active
        (only given h q.0 q.1 uuid xpdb (subst (Uncovered given h q.0 q.1 uuid) covered u))

module _ {W C D : Type 0} (outside : Outside W C D) (endpoint : String)
    (endpoints : List String) where
  -- The services of a controller that has started with these endpoints.
  pub started-services :
      (flags : Flags) (h : Config) (given : Services W)
      → parse_endpoints outside.texts flags.remote_endpoints ≡ (endpoint ∷ endpoints, [])
      → webhook outside flags ≡ some (h, given)
      → services outside (pod_validation_webhook flags (endpoint ∷ endpoints)) ≡ given
  unfolding webhook assembled
  started-services flags h given listed started =
      ap (λ p. p.1) (some_inj (sym (ap (assembled outside flags) listed) ∙ started))

module _ {W C D S : Type 0} (outside : Outside W C D) (local_holds : W → Key → Option Lease)
    (local_server : IsServer outside.leases local_holds) (law : IsResultPool outside.result_pool)
    (api : LeaseApi S) (holds : S → Key → Option Lease) (server : IsServer api holds)
    (lease_namespace_of : String → String) (store_of : W → String → S) (endpoint_of : C → String)
    (network : IsNetwork outside.state_clients local_holds api outside.names lease_namespace_of
      store_of endpoint_of)
    (cluster_at : W → String → Pdb.Cluster)
    (counting : IsCounting outside.state_clients cluster_at endpoint_of) (endpoint : String)
    (endpoints : List String)
    (schedules : (w : W) → Permᴰ (outside.schedule w) (endpoint ∷ endpoints)) where
  -- The lease of a budget names the holder in this cluster and at every endpoint.
  abbrev pub Secured : String → String → Xpdb → W → Type 0
  Secured lease_namespace identity xpdb w =
      HeldBy outside.leases local_holds local_server outside.names lease_namespace identity
        xpdb.namespace xpdb.spec.selector w
      × AllHeld outside.state_clients local_holds api holds server outside.names lease_namespace_of
          store_of endpoint_of network outside.result_pool identity xpdb.namespace
          xpdb.spec.selector (endpoint ∷ endpoints) w

  -- Every cluster has counted its own pods, and there is room for the disruption.
  abbrev pub Spare : Pod → Xpdb → W → Type 0
  Spare pod xpdb w =
      (xs : List GetStateResponse) × AllCounted outside.state_clients cluster_at endpoint_of
        counting outside.result_pool law (outside.cluster_of w) xpdb.namespace xpdb.spec.selector
        (outside.schedule w) xs
      × Room (outside.cluster_of w) outside.state_clients outside.result_pool law endpoint endpoints
          (outside.schedule w) w pod xpdb xs

  -- What holds right after the lock was taken.
  abbrev pub Guarded : String → Services W → Config → W → Pod → Xpdb → String → Type 0
  Guarded lease_namespace given h w pod xpdb uuid =
      let identity = identity_of given h pod uuid in
      let l = given.lock w identity xpdb.namespace xpdb.spec.selector in
      Secured lease_namespace identity xpdb l.0
      × Spare pod xpdb l.0
      × Approved given h (given.budget l.0 pod xpdb).0 pod xpdb

  Cleared-Guarded :
      (flags : Flags) (h : Config) (w : W) (pod : Pod) (xpdb : Xpdb) (uuid : String)
      → Cleared
          (services outside (pod_validation_webhook flags (endpoint ∷ endpoints)))
          h
          w
          pod
          xpdb
          uuid
      → Guarded flags.lease_namespace
          (services outside (pod_validation_webhook flags (endpoint ∷ endpoints)))
          h
          w
          pod
          xpdb
          uuid
  unfolding services
  Cleared-Guarded flags h w pod xpdb uuid (locked, fits, agreed) =
      let given = services outside (pod_validation_webhook flags (endpoint ∷ endpoints)) in
      let identity = identity_of given h pod uuid in
      let l = given.lock w identity xpdb.namespace xpdb.spec.selector in
      (
        lock-HoldsEverywhere outside.state_clients local_holds api holds server outside.names
            lease_namespace_of store_of endpoint_of network outside.result_pool identity
            xpdb.namespace xpdb.spec.selector law outside.leases local_server flags.lease_namespace
            endpoint endpoints (outside.schedule w) (schedules w) (outside.clock w) w locked,
        can_pod_be_disrupted-Counted outside.state_clients cluster_at endpoint_of counting
            outside.result_pool law (outside.cluster_of l.0) endpoint endpoints
            (outside.schedule l.0) pod xpdb l.0 fits,
        agreed,
      )

  -- Where the webhook of a controller that has started with remote endpoints admits a request for a pod
  -- that is read, not ignored and covered by exactly one active budget, then, right after it took the
  -- lock, the lease of the budget names this request in every cluster, every cluster has counted its own
  -- pods, the sums leave room for the disruption, and the probe, if there is one, agrees. This assumes of
  -- the network what `IsNetwork` and `IsCounting` say.
  pub admitted-Guarded :
      (flags : Flags) (h : Config) (given : Services W)
      → parse_endpoints outside.texts flags.remote_endpoints ≡ (endpoint ∷ endpoints, [])
      → webhook outside flags ≡ some (h, given)
      → (admission : Admission) → IsAdmission admission
      → (request : Request) (uuid : String) (st : State W) (pod : Pod) (xpdb : Xpdb) (r : Response)
      → decode_pod given st request ≡ ok pod
      → is_ignored pod ≡ false
      → let q = given.preactivities st.world pod in
        given.get_xpdbs_for_pod q.0 q.1 ≡ ok (xpdb ∷ [])
        → is_set xpdb.spec.suspend ≡ false
        → (handle given admission h request uuid st).1 ≡ ok r
        → r.allowed ≡ true
        → Guarded flags.lease_namespace given h q.0 q.1 xpdb uuid
  admitted-Guarded flags h given listed started admission coded request uuid st pod xpdb r readable
        ours covered active answered admits =
      let q = given.preactivities st.world pod in
      let admitted =
        (handle-AdmitsIff given h admission coded request uuid st).0 r answered admits in
      let clear =
        admitted-Cleared given h st uuid pod xpdb ours covered active
          (subst (AdmittedAs given h st uuid) readable admitted) in
      subst
        (λ g. Cleared g h q.0 q.1 xpdb uuid → Guarded flags.lease_namespace g h q.0 q.1 xpdb uuid)
        (started-services outside endpoint endpoints flags h given listed started)
        (Cleared-Guarded flags h q.0 q.1 xpdb uuid) clear
