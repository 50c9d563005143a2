-- ===== src/StateServer/Network/Counting.antt =====
-- The counts that internal/pdb/service.go asks of the other clusters, down to the pods that are there.
use x_pdb.Prelude.{
  ◌≡◌, refl, ap, subst, ◌∙◌, sym, String, true, List, [], ◌∷◌, map, Result, ok, err, fault,
}
use x_pdb.Api.{LabelSelector, Pod, Xpdb}
use x_pdb.Proto.{GetStateRequest, GetStateResponse}
use x_pdb.Converters.{convert_label_selector_to_state}
use x_pdb.Converters.RoundTrip.{to_meta_v1-to_state}
use x_pdb.Remote.{StateClients, ResultPool, IsResultPool, run_tasks, with_client}
use x_pdb.Pdb.{Cluster, Counts, get_pod_counts, state_task, can_pod_be_disrupted}
use x_pdb.Pdb.Granted.{Room, can_pod_be_disrupted-Room}
use x_pdb.StateServer.{get_state, state_response}

-- What a response says of the counts.
abbrev pub counts_in : GetStateResponse → Counts
counts_in x = record { expected = x.desired_healthy; healthy = x.healthy }

abbrev question : String → LabelSelector → GetStateRequest
question namespace selector = record {
  namespace = namespace;
  label_selector = convert_label_selector_to_state selector;
}

-- What carries the questions: each client belongs to one endpoint, and an answer is what the handler
-- there says, of the cluster as it is at that time.
pub record IsCounting {W Client : Type 0} (clients : StateClients W Client)
    (cluster_at : W → String → Cluster) (endpoint_of : Client → String) : Type 0 where
  pub get_target :
      (w : W) (e : String) (c : Client) → (clients.pool_get w e).1 ≡ ok c → endpoint_of c ≡ e
  pub state_served :
      (w : W) (c : Client) (req : GetStateRequest) (x : GetStateResponse)
      → (clients.get_state w c req).1 ≡ ok x
      → get_state (cluster_at w (endpoint_of c)) req ≡ ok x

state_response-counts :
    (r : Result Counts) (x : GetStateResponse) → state_response r ≡ ok x → r ≡ ok (counts_in x)
unfolding state_response
state_response-counts (ok c) x e =
    ap (λ r. elim r [ ok y ↦ ok (counts_in y) | err z ↦ err z | fault ↦ fault ]) e
state_response-counts (err f) x e = cc
state_response-counts fault x e = cc

get_state-counts :
    (there : Cluster) (namespace : String) (selector : LabelSelector) (x : GetStateResponse)
    → get_state there (question namespace selector) ≡ ok x
    → get_pod_counts there namespace selector ≡ ok (counts_in x)
unfolding get_state
get_state-counts there namespace selector x e =
    let same =
      ap (λ s. state_response (get_pod_counts there namespace s)) (to_meta_v1-to_state selector) in
    state_response-counts (get_pod_counts there namespace selector) x (sym same ∙ e)

module _ {W Client : Type 0} (clients : StateClients W Client) (cluster_at : W → String → Cluster)
    (endpoint_of : Client → String) (carried : IsCounting clients cluster_at endpoint_of)
    (pool : ResultPool) (law : IsResultPool pool) (cluster : Cluster) where
  -- An answer is what the cluster behind the endpoint counted itself, when it was asked.
  abbrev pub CountedAt : String → LabelSelector → String → GetStateResponse → Type 0
  CountedAt namespace selector e x =
      (w : W) × (get_pod_counts (cluster_at w e) namespace selector ≡ ok (counts_in x))

  abbrev pub AllCounted : String → LabelSelector → List String → List GetStateResponse → Type 0
  AllCounted namespace selector [] [] = Unit
  AllCounted namespace selector [] (x ∷ xs) = ⊥
  AllCounted namespace selector (e ∷ es) [] = ⊥
  AllCounted namespace selector (e ∷ es) (x ∷ xs) =
      CountedAt namespace selector e x × AllCounted namespace selector es xs

  asked :
      (namespace : String) (selector : LabelSelector) (e : String) (x : GetStateResponse)
      (p : W × Result Client)
      → ((c : Client) → p.1 ≡ ok c → endpoint_of c ≡ e)
      → (with_client (λ w c. clients.get_state w c (question namespace selector)) p).1 ≡ ok x
      → CountedAt namespace selector e x
  unfolding with_client
  asked namespace selector e x (w, ok c) target h =
      let served = carried.state_served w c _ x h in
      (
        w,
        subst (λ f. get_pod_counts (cluster_at w f) namespace selector ≡ ok (counts_in x))
            (target c refl)
            (get_state-counts (cluster_at w (endpoint_of c)) namespace selector x served),
      )
  asked namespace selector e x (w, err y) target h = cc
  asked namespace selector e x (w, fault) target h = cc

  tasks_count :
      (namespace : String) (selector : LabelSelector) (es : List String)
      (xs : List GetStateResponse) (w : W)
      → (run_tasks (state_task cluster clients pool (question namespace selector)) es w).1
        ≡ map ok xs
      → AllCounted namespace selector es xs
  unfolding run_tasks state_task
  tasks_count namespace selector [] [] w h = tt
  tasks_count namespace selector [] (x ∷ xs) w h = cc
  tasks_count namespace selector (e ∷ es) [] w h = cc
  tasks_count namespace selector (e ∷ es) (x ∷ xs) w h =
      let r = state_task cluster clients pool (question namespace selector) w e in
      (
        asked namespace selector e x (clients.pool_get w e) (carried.get_target w e) cc,
        tasks_count namespace selector es xs r.0 cc,
      )

  -- Where the budget service lets a pod go, every remote cluster has counted its pods for the selector
  -- itself, the pods here were counted, and the sums over all clusters leave room for the disruption.
  pub can_pod_be_disrupted-Counted :
      (endpoint : String) (endpoints schedule : List String) (pod : Pod) (xpdb : Xpdb) (w : W)
      → (can_pod_be_disrupted cluster clients pool (endpoint ∷ endpoints) schedule pod xpdb w).1
        ≡ ok true
      → (xs : List GetStateResponse) × AllCounted xpdb.namespace xpdb.spec.selector schedule xs
        × Room cluster clients pool law endpoint endpoints schedule w pod xpdb xs
  can_pod_be_disrupted-Counted endpoint endpoints schedule pod xpdb w e =
      let (xs, all, room) =
        can_pod_be_disrupted-Room cluster clients pool law endpoint endpoints schedule w pod xpdb
          e in
      (xs, tasks_count xpdb.namespace xpdb.spec.selector schedule xs w all, room)
