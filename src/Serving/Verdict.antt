-- ===== src/Serving/Verdict.antt =====
-- When Start of the gRPC servers reports success.
use Prim.Native.String.{◌++◌ as ◌+++◌}
use x_pdb.Prelude.{◌≡◌, refl, ◌↔◌, String, none, Result, ok, err, fault, arith}
use x_pdb.ClientPool.{Dialer, ca_pool}
use x_pdb.Serving.{
  Ended, cancelled, failed, Host, stopped, serving, trusting, watching, listening,
  start_state_server,
}

module _ {W Bytes Certs Watcher Client Listener : Type 0}
    (dialer : Dialer W Bytes Certs Watcher Client) (host : Host W Certs Watcher Listener)
    (certs_dir : String) (register : W → W × Result (Unit {0})) where
  -- The certificates can be watched and the CA certificate read, and the metrics are registered.
  abbrev pub Trusts : W × Result Watcher → Type 0
  Trusts p =
      (cw : Watcher) × (p.1 ≡ ok cw)
      × ((certs : Certs) × (ca_pool dialer certs_dir p.0 ≡ ok certs))
      × ((register p.0).1 ≡ ok tt)

  -- Before that, the port is free to listen on.
  abbrev pub Prepared : W × Result Listener → Type 0
  Prepared p =
      ((lis : Listener) × (p.1 ≡ ok lis))
      × Trusts (
          dialer.new_watcher p.0 (dialer.join_path certs_dir "tls.crt")
            (dialer.join_path certs_dir "tls.key"))

  stopped_ok : (e : Ended) → stopped none e ≡ ok tt
  unfolding stopped
  stopped_ok cancelled = refl
  stopped_ok (failed f) = refl

  serving-ok_iff :
      (lis : Listener) (cw : Watcher) (certs : Certs) (p : W × Result (Unit {0}))
      → ((serving dialer host certs_dir lis cw certs p).1 ≡ ok tt) ↔ (p.1 ≡ ok tt)
  unfolding serving
  serving-ok_iff lis cw certs (w, ok u) =
      ((λ e. refl), (λ e. stopped_ok (host.serve w lis cw certs).1))
  serving-ok_iff lis cw certs (w, err x) = ground arith
  serving-ok_iff lis cw certs (w, fault) = ground arith

  trusting-ok_iff :
      (lis : Listener) (cw : Watcher) (w : W) (r : Result Certs)
      → ((trusting dialer host certs_dir register lis cw w r).1 ≡ ok tt)
        ↔ (((certs : Certs) × (r ≡ ok certs)) × ((register w).1 ≡ ok tt))
  unfolding trusting
  trusting-ok_iff lis cw w (ok certs) =
      let it = serving-ok_iff lis cw certs (register w) in
      ((λ e. ((certs, refl), it.0 e)), (λ (c, e). it.1 e))
  trusting-ok_iff lis cw w (err x) = ((λ e. cc), (λ ((c, e), f). cc))
  trusting-ok_iff lis cw w fault = ((λ e. cc), (λ ((c, e), f). cc))

  watching-ok_iff :
      (lis : Listener) (p : W × Result Watcher)
      → ((watching dialer host certs_dir register lis p).1 ≡ ok tt) ↔ Trusts p
  unfolding watching
  watching-ok_iff lis (w, ok cw) =
      let it = trusting-ok_iff lis cw w (ca_pool dialer certs_dir w) in
      ((λ e. let (c, r) = it.0 e in (cw, refl, c, r)), (λ (x, e, c, r). it.1 (c, r)))
  watching-ok_iff lis (w, err x) = ((λ e. cc), (λ (x, e, c, r). cc))
  watching-ok_iff lis (w, fault) = ((λ e. cc), (λ (x, e, c, r). cc))

  pub listening-ok_iff :
      (p : W × Result Listener)
      → ((listening dialer host certs_dir register p).1 ≡ ok tt) ↔ Prepared p
  unfolding listening
  listening-ok_iff (w, ok lis) =
      let it = watching-ok_iff lis (
        dialer.new_watcher w (dialer.join_path certs_dir "tls.crt")
          (dialer.join_path certs_dir "tls.key")) in
      ((λ e. ((lis, refl), it.0 e)), (λ (l, t). it.1 t))
  listening-ok_iff (w, err x) = ((λ e. cc), (λ ((c, e), f). cc))
  listening-ok_iff (w, fault) = ((λ e. cc), (λ ((c, e), f). cc))

-- Start of the state server reports success exactly if the port could be listened on, the certificates
-- watched, the CA certificate read and the metrics registered: whether serving ended with an error plays
-- no part.
pub start_state_server-ok_iff :
    {W Bytes Certs Watcher Client Listener : Type 0} (dialer : Dialer W Bytes Certs Watcher Client)
    (host : Host W Certs Watcher Listener) (certs_dir port : String) (w : W)
    → ((start_state_server dialer host certs_dir port w).1 ≡ ok tt)
      ↔ Prepared dialer host certs_dir host.must_register (host.listen w (":" +++ port))
unfolding start_state_server
start_state_server-ok_iff dialer host certs_dir port w =
    listening-ok_iff dialer host certs_dir host.must_register (host.listen w (":" +++ port))
