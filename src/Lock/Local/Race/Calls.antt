-- ===== src/Lock/Local/Race/Calls.antt =====
-- What the step of a request does to the lease, and what the request then knows.
use x_pdb.Prelude.{
  ℕ, ◌+◌, ◌*◌, ◌≤◌, ◌<◌, ◌≡◌, refl, sym, ap, ◌∙◌, subst, some_inj, inl, inr, String, ◌==◌, ltb,
  Option, none, some, arith, Result, ok, err, fault, Bool-cases,
}
use x_pdb.Api.{LabelSelector}
use x_pdb.Lease.{Lease, Key, Naming, create_lease_for_selector}
use x_pdb.LeaseApi.{LeaseApi, IsServer, IsVersioned, is_not_found}
use x_pdb.Lock.Local.{second}
use x_pdb.Lock.Local.Safety.{lock_key}
use x_pdb.Lock.Local.Race.{
  Pc, starting, creating, reading, found, expired, updating, holding, refused, asking, deleting,
  released, tested, after_get, compared, after_ask, after_delete, lease_at, advance,
}
use x_pdb.Lock.Local.Race.Facts.{lifetime, Read, Claim, Known, Regular, Effect, Ends}
use x_pdb.Lock.Local.Race.Writes.{after_create-Ends, after_update-Ends, after_delete-Ends}

module _ {Store : Type 0} (api : LeaseApi Store) (holds : Store → Key → Option Lease)
    (revision : Store → ℕ) (server : IsServer api holds) (versions : IsVersioned api holds revision)
    (names : Naming) (lease_namespace namespace : String) (selector : LabelSelector) where
  abbrev key : Key
  key = lock_key names lease_namespace namespace selector

  -- A step that changes nothing.
  still : (now : ℕ) (identity : String) (s : Store) → Effect holds revision key now identity s s
  still now identity s = (omega arith, inl refl)

  after_get-Ends :
      (now : ℕ) (identity : String) (s : Store) (r : Result Lease)
      → Regular holds revision key s
      → api.get s key ≡ r
      → Ends holds revision key now identity s (after_get api s r)
  unfolding after_get
  after_get-Ends now identity s (ok l) regular e =
      let (at, k) = server.get_done s key l e in
      let (d, v) = regular l at in
      (still now identity s, (k, v, (λ c h q. ap (λ (x : Lease). x.spec) (some_inj (sym h ∙ at)))))
  after_get-Ends now identity s (err x) regular e = (still now identity s, tt)
  after_get-Ends now identity s fault regular e = (still now identity s, tt)

  tested-Ends :
      (now t : ℕ) (identity : String) (s : Store) (l : Lease) (acquired duration : Option ℕ)
      (holder : Option String)
      → t ≤ now
      → Read holds revision key s l
      → l.spec.acquire_time ≡ acquired
      → l.spec.lease_duration_seconds ≡ duration
      → Ends holds revision key now identity s (s, tested t l acquired duration holder)
  tested-Ends now t identity s l none d o b r p q = (still now identity s, tt)
  tested-Ends now t identity s l (some a) none o b r p q = (still now identity s, tt)
  tested-Ends now t identity s l (some a) (some d) none b r p q =
      elim (Bool-cases (ltb t (a + second * d))) [
        | inl live ↦ rw live (still now identity s, tt)
        | inr over ↦ rw over (still now identity s, (r, (a, d, p, q, ground arith)))
      ]
  tested-Ends now t identity s l (some a) (some d) (some o) b r p q =
      elim (Bool-cases (ltb t (a + second * d))) [
        | inl live ↦ rw live (still now identity s, tt)
        | inr over ↦ rw over (still now identity s, (r, (a, d, p, q, ground arith)))
      ]

  compared-Ends :
      (now time : ℕ) (identity : String) (s : Store) (k : Key) (holder : Option String)
      → k ≡ key
      → Claim holds revision key now s identity time
      → Ends holds revision key now identity s (compared api time identity s k holder)
  unfolding compared
  compared-Ends now time identity s k none e claim = (still now identity s, tt)
  compared-Ends now time identity s k (some o) e claim = elim (Bool-cases (o == identity)) [
    | inl same ↦ rw same (still now identity s, (claim, e))
    | inr other ↦ rw other (still now identity s, tt)
  ]

  after_ask-Ends :
      (now t time : ℕ) (identity : String) (s : Store) (r : Result Lease)
      → Claim holds revision key now s identity time
      → api.get s key ≡ r
      → Ends holds revision key now identity s (
          after_ask api time identity s
            (lease_at api names lease_namespace namespace selector t identity)
            r)
  unfolding after_ask create_lease_for_selector
  after_ask-Ends now t time identity s (ok l) claim e =
      compared-Ends now time identity s l.key l.spec.holder_identity (server.get_done s key l e).1
        claim
  after_ask-Ends now t time identity s (err x) claim e = elim (Bool-cases (is_not_found x)) [
    | inl gone ↦ rw gone (still now identity s, tt)
    | inr unread ↦ rw unread (compared-Ends now time identity s key (some identity) refl claim)
  ]
  after_ask-Ends now t time identity s fault claim e = (still now identity s, tt)

  -- One step of a request, from anything that is known of it, with a clock that is not ahead of `now`. A
  -- Delete runs before the lease runs out.
  pub advance-Ends :
      (now t : ℕ) (identity : String) (s : Store) (p : Pc)
      → t ≤ now
      → Regular holds revision key s
      → Known holds revision key now s identity p
      → ((time : ℕ) (k : Key) → p ≡ deleting time k → now < time + lifetime)
      → Ends holds revision key now identity s
          (advance api names lease_namespace namespace selector identity t s p)
  unfolding advance
  advance-Ends now t identity s starting b g k prompt = (still now identity s, tt)
  advance-Ends now t identity s (creating time) b g k prompt =
      after_create-Ends api holds revision server versions names lease_namespace namespace selector
        now time identity s _ refl
  advance-Ends now t identity s reading b g k prompt = after_get-Ends now identity s _ g refl
  advance-Ends now t identity s (found l) b g k prompt =
      tested-Ends now t identity s l _ _ _ b k refl refl
  advance-Ends now t identity s (expired l) b g k prompt = (still now identity s, k)
  advance-Ends now t identity s (updating l time) b g (r, x) prompt =
      after_update-Ends api holds revision server versions names lease_namespace namespace selector
        now time identity s l _ g r x refl
  advance-Ends now t identity s (holding time) b g k prompt = (still now identity s, k)
  advance-Ends now t identity s (refused r) b g k prompt = (still now identity s, tt)
  advance-Ends now t identity s (asking time) b g k prompt =
      after_ask-Ends now t time identity s _ k refl
  advance-Ends now t identity s (deleting time q) b g (k, e) prompt =
      subst (λ j. Ends holds revision key now identity s (after_delete api (api.delete s j)))
        (sym e)
        (after_delete-Ends api holds revision server versions names lease_namespace namespace
          selector now time identity s _ k (prompt time q refl) refl)
  advance-Ends now t identity s (released r) b g k prompt = (still now identity s, tt)
