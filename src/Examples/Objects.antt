-- ===== src/Examples/Objects.antt =====
-- Pods, selectors, annotations, controllers and pools of clients.
use x_pdb.Prelude.{
  ◌≡◌, ◌≢◌, refl, ◌↔◌, ◌⊎◌, String, true, Option, none, some, [], ◌∷◌, map, arith, Error, msg,
  Result, ok, err, if◌then◌else◌, ◌==◌,
}
use x_pdb.Prelude.Int.{pos}
use x_pdb.Api
use x_pdb.Api.{OwnerReference, Pod, Labels}
use x_pdb.Converters.{convert_label_selector_to_state, convert_label_selector_to_meta_v1}
use x_pdb.Converters.RoundTrip.{to_meta_v1-to_state}
use x_pdb.Pods.{count_healthy_pods}
use x_pdb.Pods.Healthy.{Healthies, count_healthy_pods-Healthies}
use x_pdb.Preactivities
use x_pdb.Preactivities.Verdict.{Pending, NotPending, marked, answer, can_pod_be_disrupted_lem}
use x_pdb.ClientPool.{get}
use x_pdb.ClientPool.Cache.{gets, get_again}
use x_pdb.Probe.{ProbeClients, request, can_pod_be_disrupted}
use x_pdb.Probe.Verdict.{AgreesAt, can_pod_be_disrupted_iff}
use x_pdb.Endpoints.{Texts, parse_endpoints}
use x_pdb.Endpoints.Parse.{AllNamed, parse_endpoints_lem}
use x_pdb.Examples.{selector, pod, xpdb, spec}

to_meta_v1-to_state_example :
    convert_label_selector_to_meta_v1 (convert_label_selector_to_state selector) ≡ selector
to_meta_v1-to_state_example = to_meta_v1-to_state selector

-- Of two pods one is being deleted.
abbrev leaving : Pod
leaving = record pod { deletion_timestamp = some 7 }

count_healthy_pods-Healthies_example :
    (count_healthy_pods (pod ∷ leaving ∷ []) ≡ pos 1) ↔ Healthies (pod ∷ leaving ∷ []) 1
count_healthy_pods-Healthies_example =
    count_healthy_pods-Healthies (pod ∷ leaving ∷ []) 1 (omega arith)

abbrev written : Unit {0} → Pod → Unit {0} × Option Error
written w p = (w, none)

abbrev busy : Pod
busy = record pod { annotations = some (("pre-activity.xpdb.form3.tech/drain", "") ∷ []) }

can_pod_be_disrupted_lem_example :
    (NotPending busy.annotations
      × (Preactivities.can_pod_be_disrupted written tt busy ≡ (tt, busy, ok true)))
    ⊎ (Pending busy.annotations
        × (Preactivities.can_pod_be_disrupted written tt busy ≡ (tt, marked busy, answer none)))
can_pod_be_disrupted_lem_example = can_pod_be_disrupted_lem written tt busy

-- A client is named after its endpoint; "west" cannot be dialled.
abbrev dial : Unit {0} → String → Unit {0} × Result String
dial w e = (w, (if e == "west" then err (msg "refused") else ok e))

get_again_example :
    get dial tt (gets dial tt (("east", "east") ∷ []) ("north" ∷ [])).1 "east"
    ≡ (tt, (gets dial tt (("east", "east") ∷ []) ("north" ∷ [])).1, ok "east")
unfolding get
get_again_example = get_again dial tt [] "east" "east" ("north" ∷ []) refl tt

-- Two endpoints, whatever the flag.
abbrev texts : Texts
texts = record { split = λ s. s ∷ "west:443" ∷ []; trim_space = λ s. s }

parse_endpoints_lem_example :
    ((texts.split "east:443" ≡ "" ∷ []) × (parse_endpoints texts "east:443" ≡ ([], [])))
    ⊎ ((texts.split "east:443" ≢ "" ∷ [])
        × (((parse_endpoints texts "east:443").1 ≡ []) ↔ AllNamed texts (texts.split "east:443"))
        × (AllNamed texts (texts.split "east:443")
            → (parse_endpoints texts "east:443").0 ≡ map texts.trim_space (texts.split "east:443")))
parse_endpoints_lem_example = parse_endpoints_lem texts "east:443"

-- A probe that agrees.
abbrev agreeing : ProbeClients (Unit {0}) String
agreeing = record {
  pool_get = λ w e. (w, ok e);
  is_disruption_allowed = λ w c req. (w, ok (record { is_allowed = true; error = "" }));
}

abbrev probed : Api.Xpdb
probed = record xpdb {
  spec = record spec { probe = some (record { enabled = none; endpoint = "probe:443" }) };
}

can_pod_be_disrupted_iff_example : ((can_pod_be_disrupted agreeing tt pod probed).1 ≡ ok true) ↔ (
    (probed.spec.probe ≡ none)
    ⊎ ((s : Api.XpdbProbeSpec) × (probed.spec.probe ≡ some s)
        × AgreesAt agreeing (agreeing.pool_get tt s.endpoint) (request agreeing pod probed)))
can_pod_be_disrupted_iff_example = can_pod_be_disrupted_iff agreeing tt pod probed
