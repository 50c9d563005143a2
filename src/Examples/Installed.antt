-- ===== src/Examples/Installed.antt =====
-- A controller that has started with one remote endpoint, "east".
use mathlib.Core.List.{Permᴰ}
use x_pdb.Prelude.{
  ◌≡◌, refl, true, false, none, some, ◌⊎◌, Option, Error, String, [], ◌∷◌, msg, wrap, quote, ok,
  err,
}
use x_pdb.LeaseApi.Memory.{memory, held, memory-IsServer}
use x_pdb.Lock
use x_pdb.Lock.Local.{local_lock}
use x_pdb.Pdb
use x_pdb.Preactivities
use x_pdb.Probe.{ProbeClients}
use x_pdb.StateServer
use x_pdb.StateServer.Network.Counting.{IsCounting}
use x_pdb.Prelude.Int.{◌+₃₂◌, ◌-₃₂◌}
use x_pdb.Pods.{count_healthy_pods, is_pod_ready}
use x_pdb.Scale.{
  get_pod_replication_controller, get_pod_deployment, get_pod_replica_set, get_pod_stateful_set,
  find_expected_scale,
}
use x_pdb.Remote.{run_tasks}
use x_pdb.Webhook.Handle.Admitted.{identity_of}
use x_pdb.Controller.Leftover.{HeldHere, refused-HeldHere}
use x_pdb.Webhook.{Response, Config, Services, State}
use x_pdb.Webhook.Handle.{is_ignored, decode_pod, handle}
use x_pdb.Endpoints.{Texts, parse_endpoints}
use x_pdb.Controller.{Outside, Flags, default_flags, pod_validation_webhook, services, webhook}
use x_pdb.Controller.Main.{Call, add_state_server, Calls, main}
use x_pdb.Controller.Main.SetUp.{Ran, GaveUp, main_lem}
use x_pdb.Controller.Admission.{Guarded, admitted-Guarded}
use x_pdb.Examples.Gather.{in_order, in_order-IsResultPool}
use x_pdb.Examples.Network.{
  Clusters, local_leases, local_held, local_leases-IsServer, busy, direct, direct-IsNetwork,
  east_free, east_held,
}
use x_pdb.Examples.Requests.{plain, plain-IsAdmission, request, no_metrics}
use x_pdb.Examples.{names, selector, clock, pod, xpdb}

abbrev nobody : ProbeClients Clusters String
nobody = record {
  pool_get = λ w e. (w, ok e);
  is_disruption_allowed = λ w c req. (w, err (msg "unavailable"));
}

-- A list of one endpoint is not split.
abbrev whole : Texts
whole = record { split = λ s. s ∷ []; trim_space = λ s. s }

abbrev outside : Outside Clusters String String
outside = record {
  texts = whole;
  decode_raw = λ bs. ok pod;
  get_pod = λ w ns n. ok pod;
  update_pod = λ w p. (w, none);
  leases = local_leases;
  names = names;
  cluster_of = λ w. busy;
  state_clients = direct;
  result_pool = in_order;
  probe_clients = nobody;
  clock = λ w. clock;
  schedule = λ w. "east" ∷ [];
}

abbrev flags : Flags
flags = record (default_flags "x-pdb-0") {
  remote_endpoints = "east";
  lease_namespace = "x-pdb";
  cluster_id = "here";
}

abbrev config : Config
config = record { cluster_id = "here"; pod_id = "x-pdb-0"; dry_run = false }

abbrev given : Services Clusters
unfolding services
given = services outside (pod_validation_webhook flags ("east" ∷ []))

abbrev start : State Clusters
start = record { world = east_free; events = []; metrics = no_metrics }

direct-IsCounting : IsCounting direct (λ w e. busy) (λ c. c)
direct-IsCounting = record { get_target = λ w e c h. cc; state_served = λ w c req x h. h }

listed : parse_endpoints whole "east" ≡ ("east" ∷ [], [])
unfolding parse_endpoints
listed = refl

started : webhook outside flags ≡ some (config, given)
unfolding webhook parse_endpoints
started = refl

abbrev admission : Response
admission = record { allowed = true; code = 200; message = none }

read : decode_pod given start request ≡ ok pod
unfolding handle services
read = refl

not_ignored : is_ignored pod ≡ false
unfolding handle
not_ignored = refl

covered :
    given.get_xpdbs_for_pod
      (given.preactivities east_free pod).0
      (given.preactivities east_free pod).1
    ≡ ok (xpdb ∷ [])
unfolding services Pdb.get_xpdbs_for_pod Preactivities.can_pod_be_disrupted
covered = refl

answered : (handle given plain config request "u" start).1 ≡ ok admission
unfolding handle services Pdb.get_xpdbs_for_pod Pdb.can_pod_be_disrupted Pdb.get_pod_counts
    Pdb.disruption_allowed Preactivities.can_pod_be_disrupted Lock.lock StateServer.lock
    StateServer.get_state memory local_lock run_tasks get_pod_replication_controller
    get_pod_deployment get_pod_replica_set get_pod_stateful_set find_expected_scale
    count_healthy_pods ◌+₃₂◌ ◌-₃₂◌ is_pod_ready
answered = refl

admitted-Guarded_example :
    Guarded outside local_held local_leases-IsServer in_order-IsResultPool memory held
      memory-IsServer
      (λ e. "x-pdb")
      (λ w. w.1)
      (λ c. c)
      direct-IsNetwork
      (λ w e. busy)
      direct-IsCounting
      "east"
      []
      (λ w. Permᴰ.cons refl Permᴰ.nil)
      "x-pdb"
      given
      config
      (given.preactivities east_free pod).0
      (given.preactivities east_free pod).1
      xpdb
      "u"
admitted-Guarded_example =
    admitted-Guarded outside local_held local_leases-IsServer in_order-IsResultPool memory held
      memory-IsServer (λ e. "x-pdb") (λ w. w.1) (λ c. c) direct-IsNetwork (λ w e. busy)
      direct-IsCounting "east" [] (λ w. Permᴰ.cons refl Permᴰ.nil) flags config given listed started
      plain plain-IsAdmission request "u" start pod xpdb admission read not_ignored covered refl
      answered refl

-- The other cluster refuses the lock, and the request with it; the lease here names the request.
abbrev contested : State Clusters
contested = record { world = east_held; events = []; metrics = no_metrics }

-- The identity of the request, of the pod as the pre-activities service left it.
abbrev applicant : String
applicant = identity_of given config (given.preactivities east_held pod).1 "u"

covered_there :
    given.get_xpdbs_for_pod
      (given.preactivities east_held pod).0
      (given.preactivities east_held pod).1
    ≡ ok (xpdb ∷ [])
unfolding services Pdb.get_xpdbs_for_pod Preactivities.can_pod_be_disrupted
covered_there = refl

read_there : decode_pod given contested request ≡ ok pod
unfolding handle services
read_there = refl

ready_there : (given.preactivities east_held pod).2 ≡ ok true
unfolding services Preactivities.can_pod_be_disrupted
ready_there = refl

given_here :
    (local_lock local_leases names "x-pdb"
      (outside.clock (given.preactivities east_held pod).0)
      applicant
      "shop"
      selector
      (given.preactivities east_held pod).0).1
    ≡ ok tt
unfolding services Preactivities.can_pod_be_disrupted memory local_lock
given_here = refl

abbrev no_lock : Error
no_lock =
    wrap "unable to lock remote clusters"
      (quote "lock not acquired" (msg "lease deadline not reached"))

refused_there :
    (given.lock (given.preactivities east_held pod).0 applicant "shop" selector).1 ≡ err no_lock
unfolding services Preactivities.can_pod_be_disrupted Lock.lock StateServer.lock memory local_lock
    run_tasks
refused_there = refl

refused-HeldHere_example :
    HeldHere outside local_held local_leases-IsServer in_order-IsResultPool memory held
      memory-IsServer
      (λ e. "x-pdb")
      (λ w. w.1)
      (λ c. c)
      direct-IsNetwork
      "east"
      []
      "x-pdb"
      applicant
      xpdb
      (handle given plain config request "u" contested).0.world
    × ((r : Response) × ((handle given plain config request "u" contested).1 ≡ ok r)
        × (r.allowed ≡ false))
refused-HeldHere_example =
    refused-HeldHere outside local_held local_leases-IsServer in_order-IsResultPool memory held
      memory-IsServer (λ e. "x-pdb") (λ w. w.1) (λ c. c) direct-IsNetwork "east" [] flags config
      given listed started plain plain-IsAdmission request "u" contested pod xpdb no_lock read_there
      not_ignored ready_there covered_there refl given_here refused_there

-- Everything is set up but the state server.
abbrev no_state_server : Calls outside → Call String String → Option Error
no_state_server done (add_state_server server) = some (msg "already started")
no_state_server done _ = none

main_lem_example :
    Ran outside no_state_server flags (main outside no_state_server (λ f. flags) "x-pdb-0")
    ⊎ GaveUp outside no_state_server flags (main outside no_state_server (λ f. flags) "x-pdb-0")
main_lem_example = main_lem outside no_state_server (λ f. flags) "x-pdb-0"

gave_up : (main outside no_state_server (λ f. flags) "x-pdb-0").1 ≡ 1
unfolding main parse_endpoints
gave_up = refl
