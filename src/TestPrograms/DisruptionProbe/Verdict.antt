-- ===== src/TestPrograms/DisruptionProbe/Verdict.antt =====
-- What the disruption probe of the integration tests answers to the service that asks it.
use mathlib.Core.List.{Mem, not-mem-nil, eq-or-mem_of_mem-cons, mem-cons_self, mem-cons_of_mem}
use mathlib.Core.Logic.Or
use mathlib.Core.HLevel.{⊥_prop}
use Prim.Native.String.{◌++◌ as ◌+++◌}
use x_pdb.Prelude.{
  ◌≡◌, refl, sym, ap, subst, ◌∙◌, ◌↔◌, ◌≢◌, String, true, false, some, List, [], ◌∷◌, ◌==◌, eq_iff,
  arith, Bool-cases, inl, inr, ok, ok_inj,
}
use x_pdb.Api.{Labels, Pod, Xpdb, XpdbProbeSpec}
use x_pdb.Endpoints.{Texts}
use x_pdb.Probe.{ProbeClients, request, can_pod_be_disrupted}
use x_pdb.Probe.Verdict.{can_pod_be_disrupted_answered}
use x_pdb.TestPrograms.{data_at, or_empty}
use x_pdb.TestPrograms.DisruptionProbe.{
  NotAllowed, lookup, marked, Received, config_map, other, parse_config_map, watch, start,
  configured, is_disruption_allowed, serve,
}

unmarked_iff :
    (k : String) (items : List String) (m : NotAllowed)
    → (lookup k (marked items m) ≡ false) ↔ ((¬ Mem k items) × (lookup k m ≡ false))
unfolding marked
unmarked_iff k [] m = ((λ e. (not-mem-nil, e)), (λ (n, e). e))
unmarked_iff k (item ∷ items) m =
    let it = unmarked_iff k items ((item, true) ∷ m) in
    elim (Bool-cases (item == k)) [
      | inl same ↦
          let listed : Mem k (item ∷ items) =
            subst (λ j. Mem j (item ∷ items)) ((eq_iff item k).0 same) mem-cons_self in
          ((λ e. absurd (ground (arith, it.0 e))), (λ (n, l). absurd (n listed)))
      | inr off ↦
          let apart : k ≢ item = λ p. ground (arith, eq_iff item k) in
          (
            (λ e.
                let (n, l) = it.0 e in
                ((λ h. Or.elim ⊥_prop (eq-or-mem_of_mem-cons h) apart n), ground (arith, l))),
            (λ (n, l). it.1 ((λ h. n (mem-cons_of_mem item h)), ground arith)),
          )
    ]

module _ (texts : Texts) where
  -- The names that a configuration lists.
  abbrev pub listed : Labels → List String
  listed entries = texts.split (or_empty (data_at "notAllowedDisruptions" entries))

  -- The last configuration, where `first` is the one that was there at the start.
  abbrev pub last_config : Labels → List Received → Labels
  last_config first [] = first
  last_config first (config_map entries ∷ events) = last_config entries events
  last_config first (other ∷ events) = last_config first events

  watch_lem :
      (events : List Received) (first : Labels)
      → watch texts events (parse_config_map texts first)
        ≡ parse_config_map texts (last_config first events)
  unfolding watch
  watch_lem [] first = refl
  watch_lem (config_map entries ∷ events) first = watch_lem events entries
  watch_lem (other ∷ events) first = watch_lem events first

  allowed_iff :
      (entries : Labels) (namespace name : String)
      → (is_disruption_allowed (parse_config_map texts entries) namespace name ≡ true)
        ↔ (¬ Mem (namespace +++ ("/" +++ name)) (listed entries))
  unfolding is_disruption_allowed parse_config_map
  allowed_iff entries namespace name =
      let it = unmarked_iff (namespace +++ ("/" +++ name)) (listed entries) [] in
      ((λ e. (it.0 (ground arith)).0), (λ n. ground (arith, it.1 (n, refl))))

  -- What the watcher knows after it has received some objects.
  abbrev pub known : Labels → List Received → NotAllowed
  known first events = (start texts (ok tt) (ok first) events []).0

  known_iff :
      (first : Labels) (events : List Received) (namespace name : String)
      → (is_disruption_allowed (known first events) namespace name ≡ true)
        ↔ (¬ Mem (namespace +++ ("/" +++ name)) (listed (last_config first events)))
  unfolding start configured
  known_iff first events namespace name =
      let it = allowed_iff (last_config first events) namespace name in
      let at = ap (λ m. is_disruption_allowed m namespace name) (watch_lem events first) in
      ((λ e. it.0 (sym at ∙ e)), (λ n. at ∙ it.1 n))

  -- The disruption probe service, asking the test probe at the endpoint of a budget, lets a pod go
  -- exactly if its namespace and name, joined by a slash, are not on the list of the last ConfigMap that
  -- the test probe has received.
  pub can_pod_be_disrupted-serve_iff :
      {W Client : Type 0} (clients : ProbeClients W Client) (w : W) (pod : Pod) (xpdb : Xpdb)
      (spec : XpdbProbeSpec) (c : Client) (first : Labels) (events : List Received)
      → xpdb.spec.probe ≡ some spec
      → (clients.pool_get w spec.endpoint).1 ≡ ok c
      → (clients.is_disruption_allowed
          (clients.pool_get w spec.endpoint).0
          c
          (request clients pod xpdb)).1
        ≡ ok (serve (known first events) (request clients pod xpdb))
      → ((can_pod_be_disrupted clients w pod xpdb).1 ≡ ok true)
        ↔ (¬ Mem (pod.namespace +++ ("/" +++ pod.name)) (listed (last_config first events)))
  unfolding serve request
  can_pod_be_disrupted-serve_iff clients w pod xpdb spec c first events has client answer =
      let says = serve (known first events) (request clients pod xpdb) in
      let it =
        can_pod_be_disrupted_answered clients w pod xpdb spec c says has client answer refl in
      let (forth, back) = known_iff first events pod.namespace pod.name in
      ((λ e. forth (ok_inj (sym it ∙ e))), (λ n. it ∙ ap ok (back n)))
