-- ===== src/Controller/Main.antt =====
-- main of cmd/controller/main.go: the calls of the Kubernetes libraries that it makes, one after another,
-- and the exit code of the program.
pub mod SetUp
use x_pdb.Prelude.{ℕ, String, Bool, Option, none, some, List, [], ◌∷◌, Error}
use x_pdb.Lock
use x_pdb.Pdb
use x_pdb.Probe
use x_pdb.ClientPool.{new_state_client_pool, new_probe_client_pool}
use x_pdb.StateServer.{Server, new_server}
use x_pdb.Endpoints.{parse_endpoints}
use x_pdb.Controller.{
  Outside, Flags, default_flags, PodValidationWebhook, new_pod_validation_webhook,
}

-- The calls in which main sets up the manager, with the arguments that main makes. Each can fail, but for
-- the handler of signals and the registration of the webhook.
pub data Call (StateClient ProbeClient : Type 0) : Type 0 where
  get_config_with_context : String → Call StateClient ProbeClient
  new_manager : String → String → Call StateClient ProbeClient
  setup_signal_handler : Call StateClient ProbeClient
  new_for_config : Call StateClient ProbeClient
  add_hook_server : ℕ → String → Call StateClient ProbeClient
  register : String → PodValidationWebhook StateClient ProbeClient → Call StateClient ProbeClient
  add_state_server : Server StateClient → Call StateClient ProbeClient
  add_healthz_check : String → Call StateClient ProbeClient
  add_readyz_check : String → Call StateClient ProbeClient
  start : Call StateClient ProbeClient

module _ {W StateClient ProbeClient : Type 0} (outside : Outside W StateClient ProbeClient) where
  abbrev pub Calls : Type 0
  Calls = List (Call StateClient ProbeClient)

  -- What the libraries answer to a call after the calls so far, of which the latest is the first.
  module _ (answers : Calls → Call StateClient ProbeClient → Option Error) where
    -- A call whose error is tested: the program exits with 1 where there is one.
    pub tested :
        Call StateClient ProbeClient → (Calls → Calls × ℕ) → Calls → Option Error → Calls × ℕ
    tested c next done none = next (c ∷ done)
    tested c next done (some e) = (c ∷ done, 1)

    pub attempt : Call StateClient ProbeClient → (Calls → Calls × ℕ) → Calls → Calls × ℕ
    unfolding tested
    attempt c next done = tested c next done (answers done c)

    -- mgr.Start and the checks before it.
    pub started : Calls → Calls × ℕ
    unfolding attempt
    started = attempt start (λ done. (done, 0))

    pub ready_checked : Calls → Calls × ℕ
    unfolding attempt started
    ready_checked = attempt (add_readyz_check "readyz") started

    pub health_checked : Calls → Calls × ℕ
    unfolding attempt ready_checked
    health_checked = attempt (add_healthz_check "healthz") ready_checked

    -- The two servers, made of the services.
    pub served :
        PodValidationWebhook StateClient ProbeClient → Server StateClient → Calls → Calls × ℕ
    unfolding attempt health_checked
    served pod_validation_webhook state_server done =
        attempt (add_state_server state_server) health_checked
          (register "/validate" pod_validation_webhook ∷ done)

    -- From the endpoints on. The scale finder and the pre-activities service have no fields but the API
    -- server's clients.
    pub configured : Flags → Calls → List String × List Error → Calls × ℕ
    unfolding attempt served
    configured flags done (remote_endpoints_list, _ ∷ _) = (done, 1)
    configured flags done (remote_endpoints_list, []) =
        let state_client_pool = new_state_client_pool flags.controller_certs_dir in
        let lock_service =
          Lock.new_service state_client_pool flags.lease_namespace remote_endpoints_list in
        let disruption_probe_client_pool = new_probe_client_pool flags.controller_certs_dir in
        let disruption_probe_service = Probe.new_service disruption_probe_client_pool in
        let pdb_service =
          Pdb.new_service state_client_pool flags.lease_namespace remote_endpoints_list in
        let pod_validation_webhook =
          new_pod_validation_webhook flags.cluster_id flags.pod_id flags.dry_run pdb_service
            lock_service disruption_probe_service in
        let state_server =
          new_server pdb_service lock_service flags.controller_port flags.controller_certs_dir in
        attempt (add_hook_server flags.webhook_port flags.webhook_certs_dir)
          (served pod_validation_webhook state_server) done

    pub with_client : Flags → Calls → Calls × ℕ
    unfolding configured
    with_client flags done =
        configured flags done (parse_endpoints outside.texts flags.remote_endpoints)

    pub with_manager : Flags → Calls → Calls × ℕ
    unfolding attempt with_client
    with_manager flags done =
        attempt new_for_config (with_client flags) (setup_signal_handler ∷ done)

    pub with_config : Flags → Calls → Calls × ℕ
    unfolding attempt with_manager
    with_config flags =
        attempt (new_manager flags.metrics_addr flags.probe_addr) (with_manager flags)

    -- `parse` is flag.Parse: it gives the flags of the command line, and the default for the others. The
    -- options of the logger are left out.
    unfoldable pub main : (Flags → Flags) → String → Calls × ℕ
    unfolding attempt with_config
    main parse hostname =
        let flags = parse (default_flags hostname) in
        attempt (get_config_with_context flags.kube_context) (with_config flags) []
