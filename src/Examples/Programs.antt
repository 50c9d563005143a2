-- ===== src/Examples/Programs.antt =====
-- The servers and the test programs, run.
use mathlib.Core.List.{Mem}
use x_pdb.Prelude.{
  ◌≡◌, refl, ◌↔◌, String, Bool, Option, Error, ◌==◌, true, none, some, List, [], ◌∷◌, msg, ok,
}
use x_pdb.Api
use x_pdb.Api.{Labels}
use x_pdb.ClientPool.{Dialer, ca_pool}
use x_pdb.Endpoints.{Texts}
use x_pdb.Probe.{ProbeClients, can_pod_be_disrupted}
use x_pdb.Serving.{failed, Host, start_state_server}
use x_pdb.Serving.Verdict.{Prepared, start_state_server-ok_iff}
use x_pdb.TestPrograms.DisruptionProbe.{Received, config_map, serve}
use x_pdb.TestPrograms.DisruptionProbe.Verdict.{
  known, listed, last_config, can_pod_be_disrupted-serve_iff,
}
use x_pdb.TestPrograms.App.{Event, object, interrupt}
use x_pdb.Examples.{pod, xpdb, spec}

abbrev files : Dialer (Unit {0}) String String String String
files = record {
  join_path = λ d f. f;
  new_watcher = λ w c k. (w, ok c);
  read_file = λ w f. ok f;
  empty_pool = "";
  append_certs_from_pem = λ p b. some b;
  new_client = λ w e p cw. (w, ok e);
}

-- Serving fails at once.
abbrev failing : Host (Unit {0}) String String String
failing = record {
  listen = λ w a. (w, ok a);
  must_register = λ w. (w, ok tt);
  serve = λ w l cw p. (w, failed (msg "accept failed"));
}

start_state_server-ok_iff_example :
    ((start_state_server files failing "certs" "9643" tt).1 ≡ ok tt)
    ↔ Prepared files failing "certs" failing.must_register (failing.listen tt ":9643")
start_state_server-ok_iff_example = start_state_server-ok_iff files failing "certs" "9643" tt

-- The error of Serve is not returned.
unnoticed : (start_state_server files failing "certs" "9643" tt).1 ≡ ok tt
unfolding ca_pool
unnoticed =
    (start_state_server-ok_iff files failing "certs" "9643" tt).1
      ((":9643", refl), ("tls.crt", refl, ("ca.crt", refl), refl))

abbrev texts : Texts
texts = record { split = λ s. s ∷ []; trim_space = λ s. s }

abbrev first : Labels
first = ("notAllowedDisruptions", "shop/web-1") ∷ []

abbrev changes : List Received
changes = config_map (("notAllowedDisruptions", "shop/web-0") ∷ []) ∷ []

abbrev test_probe : ProbeClients (Unit {0}) String
test_probe = record {
  pool_get = λ w e. (w, ok e);
  is_disruption_allowed = λ w c req. (w, ok (serve (known texts first changes) req));
}

abbrev probed : Api.Xpdb
probed = record xpdb {
  spec = record spec { probe = some (record { enabled = none; endpoint = "probe:443" }) };
}

can_pod_be_disrupted-serve_iff_example :
    ((can_pod_be_disrupted test_probe tt pod probed).1 ≡ ok true)
    ↔ (¬ Mem "shop/web-0" (listed texts (last_config texts first changes)))
can_pod_be_disrupted-serve_iff_example =
    can_pod_be_disrupted-serve_iff texts test_probe tt pod probed
      (record { enabled = none; endpoint = "probe:443" }) "probe:443" first changes refl refl refl

abbrev parse_bool : String → Bool × Option Error
parse_bool s = (s == "true", none)

-- The pod is made ready, then comes the signal.
abbrev events : List Event
events = object (some (("web-0", "true") ∷ [])) ∷ interrupt ∷ []
