-- ===== src/Probe/Verdict.antt =====
-- When a disruption probe agrees.
use x_pdb.Prelude.{
  ◌≡◌, refl, sym, subst, ok_inj, some_inj, ◌⊎◌, inl, inr, ◌↔◌, true, Option, none, some, eq_iff,
  arith, Result, ok, err, fault,
}
use x_pdb.Api.{Pod, Xpdb, XpdbProbeSpec}
use x_pdb.Proto.{IsDisruptionAllowedRequest, IsDisruptionAllowedResponse}
use x_pdb.Remote.{with_client}
use x_pdb.Probe.{ProbeClients, read_response, request, asked, probe, can_pod_be_disrupted}

-- A response that allows the disruption.
abbrev pub Agrees : Result IsDisruptionAllowedResponse → Type 0
Agrees r = (x : IsDisruptionAllowedResponse) × (r ≡ ok x) × (x.error ≡ "") × (x.is_allowed ≡ true)

read_response_iff :
    (r : Result IsDisruptionAllowedResponse) → (read_response r ≡ ok true) ↔ Agrees r
unfolding read_response
read_response_iff (ok x) = (
  (λ e. (x, refl, ground (arith, eq_iff x.error ""), ground (arith, eq_iff x.error ""))),
  (λ (y, p, q, a). ground (arith, p, q, a, eq_iff x.error "")),
)
read_response_iff (err e) = (λ p. cc, λ (y, p, q, a). cc)
read_response_iff fault = (λ p. cc, λ (y, p, q, a). cc)

module _ {W Client : Type 0} (clients : ProbeClients W Client) where
  -- A client was obtained for the endpoint, and what it answers allows the disruption.
  abbrev pub AgreesAt : W × Result Client → IsDisruptionAllowedRequest → Type 0
  AgreesAt p req = (c : Client) × (p.1 ≡ ok c) × Agrees (clients.is_disruption_allowed p.0 c req).1

  with_client_iff :
      (p : W × Result Client) (req : IsDisruptionAllowedRequest)
      → (read_response (with_client (λ w' c. clients.is_disruption_allowed w' c req) p).1 ≡ ok true)
        ↔ AgreesAt p req
  unfolding with_client
  with_client_iff (w, ok c) req =
      let it = read_response_iff (clients.is_disruption_allowed w c req).1 in
      (
        (λ e. (c, refl, it.0 e)),
        (λ (d, p, a). it.1 (
            subst (λ (b : Client). Agrees (clients.is_disruption_allowed w b req).1)
              (sym (ok_inj p)) a)),
      )
  with_client_iff (w, err e) req =
      ((λ p. let (x, q, n, a) = (read_response_iff (err e)).0 p in cc), (λ (d, p, a). cc))
  with_client_iff (w, fault) req =
      ((λ p. let (x, q, n, a) = (read_response_iff fault).0 p in cc), (λ (d, p, a). cc))

  probe_iff :
      (o : Option XpdbProbeSpec) (w : W) (pod : Pod) (xpdb : Xpdb)
      → ((probe clients o w pod xpdb).1 ≡ ok true) ↔ (
          (o ≡ none)
          ⊎ ((spec : XpdbProbeSpec) × (o ≡ some spec)
              × AgreesAt (clients.pool_get w spec.endpoint) (request clients pod xpdb)))
  unfolding probe asked
  probe_iff none w pod xpdb = ((λ e. inl refl), (λ h. refl))
  probe_iff (some spec) w pod xpdb =
      let it = with_client_iff (clients.pool_get w spec.endpoint) (request clients pod xpdb) in
      (
        (λ e. inr (spec, refl, it.0 e)),
        (λ h. it.1 (elim h [
          | inl e ↦ cc
          | inr (s, e, a) ↦
              subst
                (λ (t : XpdbProbeSpec).
                  AgreesAt (clients.pool_get w t.endpoint) (request clients pod xpdb))
                (sym (some_inj e)) a
        ])),
      )

  -- A probe agrees exactly if the budget has none, or its endpoint can be asked and the answer allows
  -- the disruption and carries no error text.
  pub can_pod_be_disrupted_iff :
      (w : W) (pod : Pod) (xpdb : Xpdb)
      → ((can_pod_be_disrupted clients w pod xpdb).1 ≡ ok true) ↔ (
          (xpdb.spec.probe ≡ none)
          ⊎ ((spec : XpdbProbeSpec) × (xpdb.spec.probe ≡ some spec)
              × AgreesAt (clients.pool_get w spec.endpoint) (request clients pod xpdb)))
  unfolding can_pod_be_disrupted
  can_pod_be_disrupted_iff w pod xpdb = probe_iff xpdb.spec.probe w pod xpdb

  with_client-read :
      (p : W × Result Client) (req : IsDisruptionAllowedRequest) (c : Client)
      (x : IsDisruptionAllowedResponse)
      → p.1 ≡ ok c
      → (clients.is_disruption_allowed p.0 c req).1 ≡ ok x
      → x.error ≡ ""
      → read_response (with_client (λ w' c. clients.is_disruption_allowed w' c req) p).1
        ≡ ok x.is_allowed
  unfolding with_client read_response
  with_client-read (w, ok d) req c x same answer clean =
      rw (ok_inj same, answer) (ground (arith, clean, eq_iff x.error ""))
  with_client-read (w, err e) req c x same answer clean = cc
  with_client-read (w, fault) req c x same answer clean = cc

  -- What a probe without an error text answers is the verdict.
  pub can_pod_be_disrupted_answered :
      (w : W) (pod : Pod) (xpdb : Xpdb) (spec : XpdbProbeSpec) (c : Client)
      (x : IsDisruptionAllowedResponse)
      → xpdb.spec.probe ≡ some spec
      → (clients.pool_get w spec.endpoint).1 ≡ ok c
      → (clients.is_disruption_allowed
          (clients.pool_get w spec.endpoint).0
          c
          (request clients pod xpdb)).1
        ≡ ok x
      → x.error ≡ ""
      → (can_pod_be_disrupted clients w pod xpdb).1 ≡ ok x.is_allowed
  unfolding can_pod_be_disrupted probe asked
  can_pod_be_disrupted_answered w pod xpdb spec c x has client answer clean = rw has (
      with_client-read (clients.pool_get w spec.endpoint) (request clients pod xpdb) c x client
        answer clean)
