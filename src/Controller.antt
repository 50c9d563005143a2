-- ===== src/Controller.antt =====
-- cmd/controller/main.go: how the services are put together, from the flags of the program.
pub mod Admission
pub mod Leftover
pub mod Main
use x_pdb.Prelude.{ℕ, String, Bool, false, Option, none, some, List, [], ◌∷◌, Error, Result}
use x_pdb.Api.{Pod}
use x_pdb.Lease.{Naming}
use x_pdb.LeaseApi.{LeaseApi}
use x_pdb.Remote.{StateClients, ResultPool}
use x_pdb.Lock
use x_pdb.Lock.Local.{Clock}
use x_pdb.Pdb
use x_pdb.Probe
use x_pdb.Preactivities
use x_pdb.Webhook.{Config, Services}
use x_pdb.ClientPool.{new_state_client_pool, new_probe_client_pool}
use x_pdb.StateServer.{Server, new_server}
use x_pdb.Endpoints.{Texts, parse_endpoints}

-- What the services call: the clients of the manager, the client pools and the pools of goroutines, on
-- the state `W`. `cluster_of` is what the readers of the local cluster show in a state, `clock` is the
-- time of a call that begins in it, and `schedule` the order in which its goroutines run.
pub record Outside (W StateClient ProbeClient : Type 0) : Type 1 where
  pub texts : Texts
  pub decode_raw : List ℕ → Result Pod
  pub get_pod : W → String → String → Result Pod
  pub update_pod : W → Pod → W × Option Error
  pub leases : LeaseApi W
  pub names : Naming
  pub cluster_of : W → Pdb.Cluster
  pub state_clients : StateClients W StateClient
  pub result_pool : ResultPool
  pub probe_clients : Probe.ProbeClients W ProbeClient
  pub clock : W → Clock
  pub schedule : W → List String

-- The flags.
pub record Flags : Type 0 where
  pub metrics_addr : String
  pub probe_addr : String
  pub webhook_certs_dir : String
  pub webhook_port : ℕ
  pub controller_certs_dir : String
  pub controller_port : ℕ
  pub remote_endpoints : String
  pub lease_namespace : String
  pub pod_id : String
  pub cluster_id : String
  pub kube_context : String
  pub dry_run : Bool

-- The values of the flags that are not given; `hostname` is the environment's.
abbrev pub default_flags : String → Flags
default_flags hostname = record {
  metrics_addr = ":8080";
  probe_addr = ":8081";
  webhook_certs_dir = "";
  webhook_port = 9443;
  controller_certs_dir = "";
  controller_port = 9643;
  remote_endpoints = "";
  lease_namespace = "kube-system";
  pod_id = hostname;
  cluster_id = "no-id-set";
  kube_context = "";
  dry_run = false;
}

-- The webhook's fields, less the logger, the decoder, the recorder and the API server's client, which the
-- pre-activities service has, too.
pub record PodValidationWebhook (StateClient ProbeClient : Type 0) : Type 0 where
  pub cluster_id : String
  pub pod_id : String
  pub dry_run : Bool
  pub pdb_service : Pdb.Service StateClient
  pub lock_service : Lock.Service StateClient
  pub disruption_probe_service : Probe.Service ProbeClient

abbrev pub new_pod_validation_webhook :
    {StateClient ProbeClient : Type 0}
    → String
    → String
    → Bool
    → Pdb.Service StateClient
    → Lock.Service StateClient
    → Probe.Service ProbeClient
    → PodValidationWebhook StateClient ProbeClient
new_pod_validation_webhook cluster_id pod_id dry_run pdb_service lock_service
      disruption_probe_service =
    record {
      cluster_id = cluster_id;
      pod_id = pod_id;
      dry_run = dry_run;
      pdb_service = pdb_service;
      lock_service = lock_service;
      disruption_probe_service = disruption_probe_service;
    }

-- The services that main makes, for the list of remote endpoints that it has read.
abbrev pub lock_service : {StateClient : Type 0} → Flags → List String → Lock.Service StateClient
lock_service flags remote_endpoints_list =
    Lock.new_service (new_state_client_pool flags.controller_certs_dir) flags.lease_namespace
      remote_endpoints_list

abbrev pub pdb_service : {StateClient : Type 0} → Flags → List String → Pdb.Service StateClient
pdb_service flags remote_endpoints_list =
    Pdb.new_service (new_state_client_pool flags.controller_certs_dir) flags.lease_namespace
      remote_endpoints_list

abbrev pub pod_validation_webhook :
    {StateClient ProbeClient : Type 0}
    → Flags
    → List String
    → PodValidationWebhook StateClient ProbeClient
pod_validation_webhook flags remote_endpoints_list =
    new_pod_validation_webhook flags.cluster_id flags.pod_id flags.dry_run
      (pdb_service flags remote_endpoints_list) (lock_service flags remote_endpoints_list)
      (Probe.new_service (new_probe_client_pool flags.controller_certs_dir))

abbrev pub state_server : {StateClient : Type 0} → Flags → List String → Server StateClient
state_server flags remote_endpoints_list =
    new_server (pdb_service flags remote_endpoints_list) (lock_service flags remote_endpoints_list)
      flags.controller_port flags.controller_certs_dir

module _ {W StateClient ProbeClient : Type 0} (outside : Outside W StateClient ProbeClient) where
  open outside use {
    texts, decode_raw, get_pod, update_pod, leases, names, cluster_of, state_clients, result_pool,
    probe_clients, clock, schedule,
  }

  -- What the services of a webhook do.
  unfoldable pub services : PodValidationWebhook StateClient ProbeClient → Services W
  services h = record {
    decode_raw = decode_raw;
    get_pod = get_pod;
    preactivities = Preactivities.can_pod_be_disrupted update_pod;
    get_xpdbs_for_pod = λ w pod. Pdb.get_xpdbs_for_pod (cluster_of w) pod;
    lock = λ w identity namespace selector.
        Lock.lock state_clients result_pool leases names h.lock_service.lease_namespace
          h.lock_service.remote_endpoints (schedule w) (clock w) identity namespace selector w;
    unlock = λ w identity namespace selector.
        Lock.unlock state_clients result_pool leases names h.lock_service.lease_namespace
          h.lock_service.remote_endpoints (schedule w) (clock w) identity namespace selector w;
    budget = λ w pod xpdb.
        Pdb.can_pod_be_disrupted (cluster_of w) state_clients result_pool
          h.pdb_service.remote_endpoints (schedule w) pod xpdb w;
    probe = λ w pod xpdb. Probe.can_pod_be_disrupted probe_clients w pod xpdb;
  }

  -- A webhook, with what its services do.
  abbrev pub handler : PodValidationWebhook StateClient ProbeClient → Config × Services W
  handler h =
      (record { cluster_id = h.cluster_id; pod_id = h.pod_id; dry_run = h.dry_run }, services h)

  pub assembled : Flags → List String × List Error → Option (Config × Services W)
  unfolding services
  assembled flags (remote_endpoints_list, []) =
      some (handler (pod_validation_webhook flags remote_endpoints_list))
  assembled flags (remote_endpoints_list, _ ∷ _) = none

  -- The webhook that main registers. `none` is the exit of the program where the endpoints cannot be
  -- read.
  unfoldable pub webhook : Flags → Option (Config × Services W)
  unfolding assembled
  webhook flags = assembled flags (parse_endpoints texts flags.remote_endpoints)
