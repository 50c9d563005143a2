-- ===== src/Probe.antt =====
-- internal/disruptionprobe/service.go: the question to the endpoint of a budget whether a pod may go.
pub mod Verdict
use x_pdb.Prelude.{
  String, Bool, true, Option, none, some, ◌==◌, if◌then◌else◌, msg, Result, ok, err, fault,
}
use x_pdb.Api.{Pod, Xpdb, XpdbProbeSpec}
use x_pdb.Proto.{IsDisruptionAllowedRequest, IsDisruptionAllowedResponse}
use x_pdb.ClientPool.{ClientPool}
use x_pdb.Remote.{with_client}

-- The service's fields, less the logger.
pub record Service (Client : Type 0) : Type 0 where
  pub client_pool : ClientPool Client

abbrev pub new_service : {Client : Type 0} → ClientPool Client → Service Client
new_service client_pool = record { client_pool = client_pool }

-- The client pool and the generated client. A call that runs into its timeout answers an error.
pub record ProbeClients (W Client : Type 0) : Type 0 where
  pub pool_get : W → String → W × Result Client
  pub is_disruption_allowed :
      W → Client → IsDisruptionAllowedRequest → W × Result IsDisruptionAllowedResponse

-- The verdict in a response. An error text counts as a failure.
pub read_response : Result IsDisruptionAllowedResponse → Result Bool
read_response (ok resp) = if resp.error == "" then ok resp.is_allowed else err (msg resp.error)
read_response (err e) = err e
read_response fault = fault

module _ {W Client : Type 0} (clients : ProbeClients W Client) where
  unfoldable pub request : Pod → Xpdb → IsDisruptionAllowedRequest
  request pod xpdb = record {
    pod_name = pod.name;
    pod_namespace = pod.namespace;
    xpdb_name = xpdb.name;
    xpdb_namespace = xpdb.namespace;
  }

  asked : W × Result IsDisruptionAllowedResponse → W × Result Bool
  unfolding read_response
  asked (w, r) = (w, read_response r)

  probe : Option XpdbProbeSpec → W → Pod → Xpdb → W × Result Bool
  unfolding asked with_client request
  probe none w pod xpdb = (w, ok true)
  probe (some spec) w pod xpdb = asked (
      with_client (λ w' c. clients.is_disruption_allowed w' c (request pod xpdb))
        (clients.pool_get w spec.endpoint))

  unfoldable pub can_pod_be_disrupted : W → Pod → Xpdb → W × Result Bool
  unfolding probe
  can_pod_be_disrupted w pod xpdb = probe xpdb.spec.probe w pod xpdb
