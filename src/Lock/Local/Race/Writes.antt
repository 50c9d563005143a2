-- ===== src/Lock/Local/Race/Writes.antt =====
-- What a Create, an Update and a Delete of a request do to the lease, whatever the API server answers.
use x_pdb.Prelude.{
  ℕ, ◌+◌, ◌<◌, ◌≡◌, sym, ap, ◌∙◌, subst, some_inj, inl, inr, String, Option, none, some, Error,
  Bool-cases,
}
use x_pdb.Api.{LabelSelector}
use x_pdb.Lease.{Lease, Key, Naming, create_lease_for_selector}
use x_pdb.LeaseApi.{LeaseApi, IsServer, IsVersioned, Created, Updated, is_already_exists}
use x_pdb.Lock.Local.Safety.{lock_key}
use x_pdb.Lock.Local.Verdict.{Expired}
use x_pdb.Lock.Local.Race.{taken_at, after_create, after_update, after_delete, lease_at}
use x_pdb.Lock.Local.Race.Facts.{lifetime, Read, Claim, Regular, Effect, Ends}

module _ {Store : Type 0} (api : LeaseApi Store) (holds : Store → Key → Option Lease)
    (revision : Store → ℕ) (server : IsServer api holds) (versions : IsVersioned api holds revision)
    (names : Naming) (lease_namespace namespace : String) (selector : LabelSelector) where
  abbrev key : Key
  key = lock_key names lease_namespace namespace selector

  create-Effect :
      (now time : ℕ) (identity : String) (s : Store)
      → Created holds
          (lease_at api names lease_namespace namespace selector time identity)
          s
          (api.create s (lease_at api names lease_namespace namespace selector time identity)).0
      → Effect holds revision key now identity s
          (api.create s (lease_at api names lease_namespace namespace selector time identity)).0
  unfolding create_lease_for_selector
  create-Effect now time identity s (free, (m, at, spec)) =
      let new = lease_at api names lease_namespace namespace selector time identity in
      let (lower, upper) = versions.create_version s new m free at in
      (
        versions.create_revision s new,
        inr (inl (m, at, lower, upper, ap (λ x. x.lease_duration_seconds) spec, (λ l h. cc))),
      )

  pub after_create-Ends :
      (now time : ℕ) (identity : String) (s : Store) (o : Option Error)
      → (api.create s (lease_at api names lease_namespace namespace selector time identity)).1 ≡ o
      → Ends holds revision key now identity s (
          after_create api time (
            (api.create s (lease_at api names lease_namespace namespace selector time identity)).0,
            o,
          ))
  unfolding after_create create_lease_for_selector
  after_create-Ends now time identity s none e =
      let new = lease_at api names lease_namespace namespace selector time identity in
      let made = server.create_done s new e in
      let (free, (m, at, spec)) = made in
      (
        create-Effect now time identity s made,
        (λ fresh. (m, at, ap (λ x. x.holder_identity) spec, ap (λ x. x.acquire_time) spec)),
      )
  after_create-Ends now time identity s (some x) e =
      let new = lease_at api names lease_namespace namespace selector time identity in
      let effect : Effect holds revision key now identity s (api.create s new).0 =
        elim (server.create_unsure s new x e) [
          | inl same ↦ (versions.create_revision s new, inl same)
          | inr made ↦ create-Effect now time identity s made
        ] in
      elim (Bool-cases (is_already_exists x)) [
        | inl old ↦ rw old (effect, tt)
        | inr other ↦ rw other (effect, tt)
      ]

  update-Effect :
      (now time : ℕ) (identity : String) (s : Store) (l : Lease)
      → Regular holds revision key s
      → Read holds revision key s l
      → Expired now l
      → Updated holds (taken_at time identity l) s (api.update s (taken_at time identity l)).0
      → Effect holds revision key now identity s (api.update s (taken_at time identity l)).0
  update-Effect now time identity s l regular (k, v, read) over ((c, was, same), (m, wrote, spec)) =
      let L = taken_at time identity l in
      let t = (api.update s L).0 in
      let was' : holds s key ≡ some c = subst (λ j. holds s j ≡ some c) k was in
      let at : holds t key ≡ some m = subst (λ j. holds t j ≡ some m) k wrote in
      let length =
        ap (λ x. x.lease_duration_seconds) spec
        ∙ sym (ap (λ x. x.lease_duration_seconds) (read c was' same))
        ∙ (regular c was').0 in
      elim (versions.update_version s L m wrote) [
        | inl kept ↦ (versions.update_revision s L, inl (subst (λ j. holds t j ≡ holds s j) k kept))
        | inr (lower, upper) ↦ (
          versions.update_revision s L,
          inr (inl (m, at, lower, upper, length, free c was' (read c was' same) over)),
        )
      ]
    where
      free :
          (c : Lease)
          → holds s key ≡ some c
          → c.spec ≡ l.spec
          → Expired now l
          → (q : Lease) → holds s key ≡ some q
          → Expired now q
      free c was same (a, d, p, r, h) q at =
          let e = ap (λ (x : Lease). x.spec) (some_inj (sym at ∙ was)) ∙ same in
          (a, d, ap (λ x. x.acquire_time) e ∙ p, ap (λ x. x.lease_duration_seconds) e ∙ r, h)

  pub after_update-Ends :
      (now time : ℕ) (identity : String) (s : Store) (l : Lease) (o : Option Error)
      → Regular holds revision key s
      → Read holds revision key s l
      → Expired now l
      → (api.update s (taken_at time identity l)).1 ≡ o
      → Ends holds revision key now identity s
          (after_update api time ((api.update s (taken_at time identity l)).0, o))
  unfolding after_update
  after_update-Ends now time identity s l none regular read over e =
      let L = taken_at time identity l in
      let written = server.update_done s L e in
      let (was, (m, wrote, spec)) = written in
      let at : holds (api.update s L).0 key ≡ some m =
        subst (λ j. holds (api.update s L).0 j ≡ some m) read.0 wrote in
      (
        update-Effect now time identity s l regular read over written,
        (λ fresh. (m, at, ap (λ x. x.holder_identity) spec, ap (λ x. x.acquire_time) spec)),
      )
  after_update-Ends now time identity s l (some x) regular read over e =
      let L = taken_at time identity l in
      elim (server.update_unsure s L x e) [
        | inl same ↦ (
          (
            versions.update_revision s L,
            inl (subst (λ j. holds (api.update s L).0 j ≡ holds s j) read.0 same),
          ),
          tt,
        )
        | inr written ↦ (update-Effect now time identity s l regular read over written, tt)
      ]

  delete-Effect :
      (now time : ℕ) (identity : String) (s : Store)
      → Claim holds revision key now s identity time
      → now < time + lifetime
      → holds (api.delete s key).0 key ≡ none
      → Effect holds revision key now identity s (api.delete s key).0
  delete-Effect now time identity s claim fresh gone =
      let (l, h, o, a) = claim fresh in
      (
        versions.delete_revision s key,
        inr (
            inr (
              gone,
              (λ c q. ap (λ (x : Lease). x.spec.holder_identity) (some_inj (sym q ∙ h)) ∙ o),
            )),
      )

  pub after_delete-Ends :
      (now time : ℕ) (identity : String) (s : Store) (o : Option Error)
      → Claim holds revision key now s identity time
      → now < time + lifetime
      → (api.delete s key).1 ≡ o
      → Ends holds revision key now identity s (after_delete api ((api.delete s key).0, o))
  unfolding after_delete
  after_delete-Ends now time identity s none claim fresh e =
      (delete-Effect now time identity s claim fresh (server.delete_done s key e), tt)
  after_delete-Ends now time identity s (some x) claim fresh e =
      elim (server.delete_unsure s key x e) [
        | inl same ↦ ((versions.delete_revision s key, inl same), tt)
        | inr gone ↦ (delete-Effect now time identity s claim fresh gone, tt)
      ]
