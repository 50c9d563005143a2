-- ===== src/Webhook/Identity.antt =====
-- The identities under which the requests of all webhooks take their locks, internal/lock/leases.go.
use Prim.Native.String.{◌++◌ as ◌+++◌, count}
use text.Mathlib.TextLemmas.{append_assoc, append_inj}
use text.Mathlib.TextLemmas as TextLemmas
use x_pdb.Prelude.{◌≡◌, sym, ap, ◌∙◌, String, arith}
use x_pdb.Webhook.{create_lease_holder_identity}

-- What stands before the UUID.
prefix : String → String → String → String → String
prefix cluster_id xpdb_pod_id pod_namespace pod_name =
    cluster_id
    +++ ("/" +++ (xpdb_pod_id +++ ("/" +++ (pod_namespace +++ ("/" +++ (pod_name +++ "/"))))))

prefix-append :
    (c p ns n uuid : String) → create_lease_holder_identity c p ns n uuid ≡ prefix c p ns n +++ uuid
unfolding create_lease_holder_identity prefix
prefix-append c p ns n uuid = simp append_assoc

same_end : (s t u v : String) → s +++ u ≡ t +++ v → count u ≡ count v → u ≡ v
same_end s t u v e len =
    let whole = sym (TextLemmas.length-append s u) ∙ ap count e ∙ TextLemmas.length-append t v in
    (append_inj e (omega arith)).1

-- Two identities that a lock is asked for with are the same only where their UUIDs are the same, whatever
-- else they are made of, where UUIDs are of one length.
pub create_lease_holder_identity-inj :
    (c p ns n uuid c' p' ns' n' uuid' : String)
    → count uuid ≡ count uuid'
    → create_lease_holder_identity c p ns n uuid ≡ create_lease_holder_identity c' p' ns' n' uuid'
    → uuid ≡ uuid'
create_lease_holder_identity-inj c p ns n uuid c' p' ns' n' uuid' len e =
    same_end (prefix c p ns n) (prefix c' p' ns' n') uuid uuid'
      (sym (prefix-append c p ns n uuid) ∙ e ∙ prefix-append c' p' ns' n' uuid') len
