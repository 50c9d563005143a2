-- ===== src/Serving.antt =====
-- The start of the two gRPC servers: Start of internal/state/server/server.go and of
-- cmd/testdisruptionprobe/main.go. Sockets, certificates and gRPC are parameters.
pub mod Verdict
use Prim.Native.String.{◌++◌ as ◌+++◌}
use x_pdb.Prelude.{
  ℕ, ◌≡◌, refl, ◌↔◌, String, Option, none, some, Error, msg, wrap, Result, ok, err, fault, arith,
}
use x_pdb.ClientPool.{Dialer, ca_pool}

-- How the wait at the end of Start ends: the context is done, or Serve has failed.
pub data Ended : Type 0 where
  cancelled : Ended
  failed : Error → Ended

-- What Start calls of net, the registry of metrics and gRPC. `serve` is the new server with its
-- goroutine, until the wait ends.
pub record Host (W Certs Watcher Listener : Type 0) : Type 0 where
  pub listen : W → String → W × Result Listener
  pub must_register : W → W × Result (Unit {0})
  pub serve : W → Listener → Watcher → Certs → W × Ended

-- The last statement of Start. Its `err` is not the error that was received, but the variable that
-- reading the CA certificate has set.
pub stopped : Option Error → Ended → Result (Unit {0})
stopped e cancelled = ok tt
stopped none (failed f) = ok tt
stopped (some e) (failed f) = err e

module _ {W Bytes Certs Watcher Client Listener : Type 0}
    (dialer : Dialer W Bytes Certs Watcher Client) (host : Host W Certs Watcher Listener)
    (certs_dir : String) where
  pub serving : Listener → Watcher → Certs → W × Result (Unit {0}) → W × Result (Unit {0})
  unfolding stopped
  serving lis cw cert_pool (w, ok u) =
      let r = host.serve w lis cw cert_pool in (r.0, stopped none r.1)
  serving lis cw cert_pool (w, err e) = (w, err e)
  serving lis cw cert_pool (w, fault) = (w, fault)

  pub trusting :
      (W → W × Result (Unit {0})) → Listener → Watcher → W → Result Certs → W × Result (Unit {0})
  unfolding serving
  trusting register lis cw w (ok cert_pool) = serving lis cw cert_pool (register w)
  trusting register lis cw w (err e) = (w, err e)
  trusting register lis cw w fault = (w, fault)

  pub watching : (W → W × Result (Unit {0})) → Listener → W × Result Watcher → W × Result (Unit {0})
  unfolding trusting
  watching register lis (w, ok cw) = trusting register lis cw w (ca_pool dialer certs_dir w)
  watching register lis (w, err e) = (w, err (wrap "error creating cert watcher" e))
  watching register lis (w, fault) = (w, fault)

  pub listening : (W → W × Result (Unit {0})) → W × Result Listener → W × Result (Unit {0})
  unfolding watching
  listening register (w, ok lis) = watching register lis (
      dialer.new_watcher w (dialer.join_path certs_dir "tls.crt")
        (dialer.join_path certs_dir "tls.key"))
  listening register (w, err e) = (w, err e)
  listening register (w, fault) = (w, fault)

  -- Start of the state server; `port` is its port in decimal.
  unfoldable pub start_state_server : String → W → W × Result (Unit {0})
  unfolding listening
  start_state_server port w = listening host.must_register (host.listen w (":" +++ port))

  -- Start of the server of the test probe, which registers no metrics.
  unfoldable pub start_test_probe : String → W → W × Result (Unit {0})
  unfolding listening
  start_test_probe listen_addr w = listening (λ w. (w, ok tt)) (host.listen w listen_addr)
