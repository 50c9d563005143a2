-- ===== src/Controller/Main/SetUp.antt =====
-- What main has set up when it starts the manager, and why it exits where it does not.
use x_pdb.Prelude.{
  ℕ, ◌≡◌, refl, ap, ◌≢◌, ◌↔◌, ◌⊎◌, inl, inr, String, Bool, true, false, Option, none, some, List,
  [], ◌∷◌, Error,
}
use x_pdb.Endpoints.{parse_endpoints}
use x_pdb.Controller.{
  Outside, Flags, default_flags, pod_validation_webhook, state_server, handler, assembled, webhook,
}
use x_pdb.Controller.Main.{
  Call, get_config_with_context, new_manager, setup_signal_handler, new_for_config, add_hook_server,
  register, add_state_server, add_healthz_check, add_readyz_check, start, Calls, tested, attempt,
  configured, started, ready_checked, health_checked, served, with_client, with_manager,
  with_config, main,
}

module _ {StateClient ProbeClient : Type 0} where
  -- The manager was started.
  abbrev pub has_started : List (Call StateClient ProbeClient) → Bool
  has_started [] = false
  has_started (start ∷ done) = true
  has_started (_ ∷ done) = has_started done

  -- The calls before Start, the latest first: the manager has the server of the webhook, which serves the
  -- webhook under its path, the state server and both checks.
  abbrev pub everything : Flags → List String → List (Call StateClient ProbeClient)
  everything flags remote_endpoints_list =
      add_readyz_check "readyz"
      ∷ add_healthz_check "healthz"
      ∷ add_state_server (state_server flags remote_endpoints_list)
      ∷ register "/validate" (pod_validation_webhook flags remote_endpoints_list)
      ∷ add_hook_server flags.webhook_port flags.webhook_certs_dir
      ∷ new_for_config
      ∷ setup_signal_handler
      ∷ new_manager flags.metrics_addr flags.probe_addr
      ∷ get_config_with_context flags.kube_context
      ∷ []

module _ {W StateClient ProbeClient : Type 0} (outside : Outside W StateClient ProbeClient)
    (answers : Calls outside → Call StateClient ProbeClient → Option Error) (flags : Flags) where
  -- The manager was started, with everything set up, and the exit code tells how it ended.
  abbrev pub Ran : Calls outside × ℕ → Type 0
  Ran r =
      (remote_endpoints_list : List String) × (parse_endpoints outside.texts flags.remote_endpoints
        ≡ (remote_endpoints_list, []))
      × (webhook outside flags
          ≡ some (handler outside (pod_validation_webhook flags remote_endpoints_list)))
      × (r.0 ≡ start ∷ everything flags remote_endpoints_list)
      × ((r.1 ≡ 0) ↔ (answers (everything flags remote_endpoints_list) start ≡ none))

  -- The latest call has failed, or the endpoints cannot be read.
  abbrev pub Reason : Calls outside → Type 0
  Reason done =
      ((c : Call StateClient ProbeClient) × (cs : Calls outside) × (e : Error) × (done ≡ c ∷ cs)
        × (answers cs c ≡ some e))
      ⊎ ((parse_endpoints outside.texts flags.remote_endpoints).1 ≢ [])

  -- The program exits with 1 for a reason, and the manager was not started.
  abbrev pub GaveUp : Calls outside × ℕ → Type 0
  GaveUp r = (r.1 ≡ 1) × (has_started r.0 ≡ false) × Reason r.0

  abbrev Ends : Calls outside × ℕ → Type 0
  Ends r = Ran r ⊎ GaveUp r

  tested-Ends :
      (c : Call StateClient ProbeClient) (next : Calls outside → Calls outside × ℕ)
      (done : Calls outside) (o : Option Error)
      → answers done c ≡ o
      → has_started (c ∷ done) ≡ false
      → Ends (next (c ∷ done))
      → Ends (tested outside answers c next done o)
  unfolding tested
  tested-Ends c next done none e not_yet rest = rest
  tested-Ends c next done (some x) e not_yet rest = inr (refl, not_yet, inl (c, done, x, refl, e))

  start-Ends :
      (es : List String) (o : Option Error)
      → answers (everything flags es) start ≡ o
      → parse_endpoints outside.texts flags.remote_endpoints ≡ (es, [])
      → Ends (tested outside answers start (λ done. (done, 0)) (everything flags es) o)
  unfolding tested webhook assembled
  start-Ends es none e read =
      inl (es, read, ap (assembled outside flags) read, refl, ((λ _. e), (λ _. refl)))
  start-Ends es (some x) e read =
      inl (es, read, ap (assembled outside flags) read, refl, ((λ h. cc), (λ h. cc)))

  abbrev prepared : Calls outside
  prepared =
      new_for_config
      ∷ setup_signal_handler
      ∷ new_manager flags.metrics_addr flags.probe_addr
      ∷ get_config_with_context flags.kube_context
      ∷ []

  configured-Ends :
      (r : List String × List Error)
      → parse_endpoints outside.texts flags.remote_endpoints ≡ r
      → Ends (configured outside answers flags prepared r)
  unfolding configured attempt served health_checked ready_checked started
  configured-Ends (es, x ∷ xs) e = inr (refl, refl, inr (λ h. cc))
  configured-Ends (es, []) e =
      let server = add_hook_server flags.webhook_port flags.webhook_certs_dir in
      let states = add_state_server (state_server flags es) in
      let done = register "/validate" (pod_validation_webhook flags es) ∷ server ∷ prepared in
      tested-Ends server
        (served outside answers (pod_validation_webhook flags es) (state_server flags es)) prepared
        _ refl refl
        (tested-Ends states (health_checked outside answers) done _ refl refl (
          tested-Ends (add_healthz_check "healthz") (ready_checked outside answers) (states ∷ done)
            _ refl refl
            (tested-Ends (add_readyz_check "readyz") (started outside answers)
              (add_healthz_check "healthz" ∷ states ∷ done) _ refl refl (start-Ends es _ refl e))))

-- main starts the manager only when the server of the webhook, which serves the webhook of the given flags
-- under its path, the state server, with the same lock and budget services, and both checks are set up,
-- and then exits with 0 exactly if the manager ends without an error. Otherwise it exits with 1, because
-- the last call failed or the endpoints cannot be read, and the manager was not started.
pub main_lem :
    {W StateClient ProbeClient : Type 0} (outside : Outside W StateClient ProbeClient)
    (answers : Calls outside → Call StateClient ProbeClient → Option Error) (parse : Flags → Flags)
    (hostname : String)
    → Ran outside answers (parse (default_flags hostname)) (main outside answers parse hostname)
      ⊎ GaveUp outside answers
          (parse (default_flags hostname))
          (main outside answers parse hostname)
unfolding main attempt with_config with_manager with_client
main_lem outside answers parse hostname =
    let flags = parse (default_flags hostname) in
    let config = get_config_with_context flags.kube_context in
    let manager = new_manager flags.metrics_addr flags.probe_addr in
    tested-Ends outside answers flags config (with_config outside answers flags) [] _ refl refl (
      tested-Ends outside answers flags manager (with_manager outside answers flags) (config ∷ []) _
        refl refl
        (tested-Ends outside answers flags new_for_config (with_client outside answers flags)
          (setup_signal_handler ∷ manager ∷ config ∷ []) _ refl refl
          (configured-Ends outside answers flags
            (parse_endpoints outside.texts flags.remote_endpoints) refl)))
