-- ===== src/ClientPool.antt =====
-- internal/state/client/client.go and internal/disruptionprobe/client_pool.go: the clients by
-- endpoint, made on first use. The mutex makes a call of Get one step. Certificates, files and
-- connections are the operating system's and gRPC's: parameters.
pub mod Cache
use x_pdb.Prelude.{
  String, Bool, true, false, Option, none, some, List, [], ◌∷◌, ◌==◌, if◌then◌else◌, Error, msg,
  wrap, Result, ok, err, fault, ◌>>=◌,
}

-- What newClient calls: `W` is the state of the outside, `Bytes` a file's content, `Certs` a pool of
-- certificates, `Watcher` a certificate watcher and `Client` a client on a connection.
pub record Dialer (W Bytes Certs Watcher Client : Type 0) : Type 0 where
  pub join_path : String → String → String
  pub new_watcher : W → String → String → W × Result Watcher
  pub read_file : W → String → Result Bytes
  pub empty_pool : Certs
  pub append_certs_from_pem : Certs → Bytes → Option Certs
  pub new_client : W → String → Certs → Option Watcher → W × Result Client

abbrev pub Clients : Type 0 → Type 0
Clients Client = List (String × Client)

module _ {Client : Type 0} where
  abbrev pub lookup : String → Clients Client → Option Client
  lookup k [] = none
  lookup k ((j, c) ∷ m) = if j == k then some c else lookup k m

-- A pool, with no client at first.
pub record ClientPool (Client : Type 0) : Type 0 where
  pub certs_dir : String
  pub clients : Clients Client

-- NewClientPool of the state client.
abbrev pub new_state_client_pool : {Client : Type 0} → String → ClientPool Client
new_state_client_pool certs_dir = record { certs_dir = certs_dir; clients = [] }

-- NewClientPool of the client of disruption probes.
abbrev pub new_probe_client_pool : {Client : Type 0} → String → ClientPool Client
new_probe_client_pool certs_dir = record { certs_dir = certs_dir; clients = [] }

module _ {W Client : Type 0} where
  pub store : String → Clients Client → W × Result Client → W × Clients Client × Result Client
  store endpoint clients (w, ok c) = (w, (endpoint, c) ∷ clients, ok c)
  store endpoint clients (w, err e) = (w, clients, err e)
  store endpoint clients (w, fault) = (w, clients, fault)

  -- ClientPool.Get. `new` is newClient.
  unfoldable pub get :
      (W → String → W × Result Client)
      → W
      → Clients Client
      → String
      → W × Clients Client × Result Client
  unfolding store
  get new w clients endpoint = elim (lookup endpoint clients) [
    | some c ↦ (w, clients, ok c)
    | none ↦ store endpoint clients (new w endpoint)
  ]

module _ {W Bytes Certs Watcher Client : Type 0} (dialer : Dialer W Bytes Certs Watcher Client)
    (certs_dir : String) where
  open dialer use {join_path, new_watcher, read_file, empty_pool, append_certs_from_pem}

  -- The pool of certificates from the file ca.crt, which both services build.
  unfoldable pub ca_pool : W → Result Certs
  ca_pool w = elim (read_file w (join_path certs_dir "ca.crt")) [
    | ok client_ca_bytes ↦ elim (append_certs_from_pem empty_pool client_ca_bytes) [
      | some cert_pool ↦ ok cert_pool
      | none ↦ err (msg "failed to append client CA cert to CA pool")
    ]
    | err e ↦ err (wrap "failed to read client CA cert" e)
    | fault ↦ fault
  ]

  pub connect : W → String → Option Watcher → Result Certs → W × Result Client
  connect w endpoint cw (ok cert_pool) = dialer.new_client w endpoint cert_pool cw
  connect w endpoint cw (err e) = (w, err e)
  connect w endpoint cw fault = (w, fault)

  watched : String → W × Result Watcher → W × Result Client
  unfolding connect ca_pool
  watched endpoint (w, ok cw) = connect w endpoint (some cw) (ca_pool w)
  watched endpoint (w, err e) = (w, err (wrap "error creating cert watcher" e))
  watched endpoint (w, fault) = (w, fault)

  -- newClient of the state client: with a certificate of its own.
  pub new_state_client : W → String → W × Result Client
  unfolding watched
  new_state_client w endpoint =
      watched endpoint
        (new_watcher w (join_path certs_dir "tls.crt") (join_path certs_dir "tls.key"))

  -- newClient of the client of disruption probes: without one.
  pub new_probe_client : W → String → W × Result Client
  unfolding connect ca_pool
  new_probe_client w endpoint = connect w endpoint none (ca_pool w)
