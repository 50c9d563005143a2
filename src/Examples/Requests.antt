-- ===== src/Examples/Requests.antt =====
-- Requests to the webhook, with the lock on one cluster and a budget that is spent.
use x_pdb.Prelude.{
  String, ◌≡◌, refl, ◌↔◌, Bool, true, false, Option, none, some, [], ◌∷◌, if◌then◌else◌, Error, msg,
  ok,
}
use x_pdb.Api.{Pod}
use x_pdb.Lease.{create_lease_name_for_selector}
use x_pdb.Lease.Keys.{same_key}
use x_pdb.LeaseApi.Memory.{Memory, memory}
use x_pdb.Lock.Local.{local_lock, local_unlock}
use x_pdb.Preactivities
use x_pdb.Metrics.{Metrics}
use x_pdb.Webhook.Identity.{create_lease_holder_identity-inj}
use x_pdb.Webhook.{
  create_lease_holder_identity, Request, Response, Config, Services, State, Admission, IsAdmission,
}
use x_pdb.Webhook.Handle.{decode_pod, is_ignored, handle}
use x_pdb.Webhook.Handle.Admitted.{AdmitsIff, Admitted, identity_of}
use x_pdb.Webhook.Handle.Verdict.{handle-AdmitsIff}
use x_pdb.Webhook.Handle.Locking.{Settled, handle-Settled}
use x_pdb.Webhook.Handle.Effects.{IsCoded, IsTold, handle_effects}
use x_pdb.Webhook.Handle.DryRun.{dry, Allows, dry_run_verdict}
use x_pdb.Examples.{names, selector, clock, empty, pod, xpdb}

abbrev pub plain : Admission
plain = record {
  validation_response = λ allowed m.
      if allowed
      then record { allowed = true; code = 200; message = m }
      else record { allowed = false; code = 403; message = m };
  errored = λ code m. record { allowed = false; code = code; message = m };
}

pub plain-IsAdmission : IsAdmission plain
plain-IsAdmission = record { admits = λ m. refl; denies = λ m. refl; fails = λ code m. refl }

abbrev written : Memory → Pod → Memory × Option Error
written w p = (w, none)

-- The budget's verdict is `spare`.
abbrev services_with : Bool → Services Memory
services_with spare = record {
  decode_raw = λ bs. ok pod;
  get_pod = λ w ns n. ok pod;
  preactivities = λ w p. Preactivities.can_pod_be_disrupted written w p;
  get_xpdbs_for_pod = λ w p. ok (xpdb ∷ []);
  lock = λ w id ns sel. local_lock memory names "x-pdb" clock id ns sel w;
  unlock = λ w id ns sel. local_unlock memory names "x-pdb" 10_000_000 id ns sel w;
  budget = λ w p x. (w, ok spare);
  probe = λ w p x. (w, ok true);
}

abbrev config : Config
config = record { cluster_id = "here"; pod_id = "x-pdb-0"; dry_run = false }

abbrev pub request : Request
request = record {
  old_object = [];
  namespace = "shop";
  name = "web-0";
  resource = "pods";
  sub_resource = "eviction";
  operation = "CREATE";
}

abbrev pub no_metrics : Metrics
no_metrics = record {
  eviction_rejected = λ k. 0;
  pod_matching_multiple_xpdbs = λ k. 0;
  lock_errors = λ k. 0;
}

abbrev state_with : Memory → State Memory
state_with s = record { world = s; events = []; metrics = no_metrics }

handle-AdmitsIff_example :
    AdmitsIff
      (services_with true)
      config
      (handle (services_with true) plain config request "u" (state_with empty)).1
      (Admitted (services_with true) config (state_with empty) request "u")
handle-AdmitsIff_example =
    handle-AdmitsIff (services_with true) config plain plain-IsAdmission request "u"
      (state_with empty)

dry_run_verdict_example :
    Allows (handle (services_with false) plain (dry config) request "u" (state_with empty)).1
    ↔ Allows (handle (services_with false) plain config request "u" (state_with empty)).1
dry_run_verdict_example =
    dry_run_verdict (services_with false) plain plain-IsAdmission config request "u"
      (state_with empty)

read :
    (spare : Bool) (s : Memory) → decode_pod (services_with spare) (state_with s) request ≡ ok pod
unfolding handle
read spare s = refl

not_ignored : is_ignored pod ≡ false
unfolding handle
not_ignored = refl

prepared : (Preactivities.can_pod_be_disrupted written empty pod).2 ≡ ok true
unfolding Preactivities.can_pod_be_disrupted
prepared = refl

abbrev refusal : Response
refusal = record {
  allowed = false;
  code = 429;
  message = some (msg "Cannot disrupt pod as it would violate the pod's xpdb disruption budget.");
}

answered : (handle (services_with false) plain config request "u" (state_with empty)).1 ≡ ok refusal
unfolding handle memory local_lock local_unlock Preactivities.can_pod_be_disrupted same_key
    create_lease_name_for_selector
answered = refl

handle_effects_example :
    IsCoded config refusal
    × IsTold []
        (handle (services_with false) plain config request "u" (state_with empty)).0.events
        refusal
handle_effects_example =
    handle_effects (services_with false) config plain plain-IsAdmission request "u"
      (state_with empty) refusal answered

obtained :
    (local_lock memory names "x-pdb" clock
      (identity_of (services_with false) config pod "u")
      "shop"
      selector
      empty).1
    ≡ ok tt
unfolding local_lock memory
obtained = refl

handle-Settled_example :
    Settled
      (services_with false)
      config
      plain
      plain-IsAdmission
      (state_with empty)
      (local_lock memory names "x-pdb" clock
        (identity_of (services_with false) config pod "u")
        "shop"
        selector
        empty).0
      pod
      xpdb
      (identity_of (services_with false) config pod "u")
      (handle (services_with false) plain config request "u" (state_with empty)).0
      refusal
unfolding Preactivities.can_pod_be_disrupted
handle-Settled_example =
    handle-Settled (services_with false) config plain plain-IsAdmission request "u"
      (state_with empty) pod xpdb (read false empty) not_ignored prepared refl refl refusal obtained
      answered

-- Parts with a slash can be cut in two ways.
ambiguous :
    create_lease_holder_identity "here" "a/b" "shop" "web-0" "u"
    ≡ create_lease_holder_identity "here/a" "b" "shop" "web-0" "u"
unfolding create_lease_holder_identity
ambiguous = refl

create_lease_holder_identity-inj_example : ◌≡◌ {A = String} "u" "u"
create_lease_holder_identity-inj_example =
    create_lease_holder_identity-inj "here" "a/b" "shop" "web-0" "u" "here/a" "b" "shop" "web-0" "u"
      refl ambiguous
