-- ===== src/Lock/Local/Unlock.antt =====
-- What LocalUnlock guarantees, and what it does where the API server fails.
use x_pdb.Prelude.{
  ◌↔◌, ◌⊎◌, ◌∙◌, ◌==◌, refl, sym, ap, subst, some_inj, Option-cases, ℕ, ◌≡◌, ◌≢◌, inl, inr, String,
  false, Option, none, some, eq_iff, arith, Error, msg, ok, err, Bool-cases, Result-cases,
}
use x_pdb.Api.{LabelSelector}
use x_pdb.Lease.{Lease, Key, Naming}
use x_pdb.LeaseApi.{LeaseApi, IsServer, IsAvailable, is_not_found}
use x_pdb.Lock.Local.{Clock, check_holder, release, local_lock, local_unlock}
use x_pdb.Lock.Local.Safety.{lock_key, Obtained-holder, local_lock-ok}

module _ {ℓ} {Store : Type ℓ} (api : LeaseApi Store) (holds : Store → Key → Option Lease)
    (server : IsServer api holds) (names : Naming) (lease_namespace identity namespace : String)
    (selector : LabelSelector) where
  abbrev key : Key
  key = lock_key names lease_namespace namespace selector

  check_holder-ok :
      (s : Store) (k : Key) (o : Option String)
      → (check_holder api identity s k o).1 ≡ ok tt
      → holds (check_holder api identity s k o).0 k ≡ none
  unfolding check_holder
  check_holder-ok s k none h = cc
  check_holder-ok s k (some x) h = ground (arith, server.delete_done s k)

  -- After a successful LocalUnlock there is no lease for the selector.
  pub local_unlock-ok :
      (now : ℕ) (s : Store)
      → (local_unlock api names lease_namespace now identity namespace selector s).1 ≡ ok tt
      → holds (local_unlock api names lease_namespace now identity namespace selector s).0 key
        ≡ none
  unfolding local_unlock release
  local_unlock-ok now s h = elim (Result-cases (api.get s key)) [
    | inl (l, e) ↦
        let (h', k) = server.get_done s key l e in
        ground (arith, k, check_holder-ok s key l.spec.holder_identity)
    | inr (inl (x, e)) ↦ elim (Bool-cases (is_not_found x)) [
      | inl n ↦ ground (arith, server.get_missing s key x e n)
      | inr n ↦ ground (arith, check_holder-ok s key (some identity))
    ]
    | inr (inr e) ↦ absurd (server.get_returns s key e)
  ]

  -- The holder is spared: where the server answers the question who holds the lease, and it is
  -- somebody else, LocalUnlock reports an error and changes no lease.
  pub local_unlock_spares :
      (now : ℕ) (s : Store) (l : Lease) (holder : String)
      → api.get s key ≡ ok l
      → l.spec.holder_identity ≡ some holder
      → holder ≢ identity
      → local_unlock api names lease_namespace now identity namespace selector s
        ≡ (s, err (msg "holder identity does not match. Someone else has taken over the lease."))
  unfolding local_unlock release
  local_unlock_spares now s l holder e h n = ground (arith, eq_iff holder identity)

  -- Where the question fails for another reason than that there is no lease, LocalUnlock deletes the
  -- lease, whoever holds it.
  pub local_unlock_unread :
      (now : ℕ) (s : Store) (x : Error)
      → api.get s key ≡ err x
      → is_not_found x ≡ false
      → (api.delete s key).1 ≡ none
      → ((local_unlock api names lease_namespace now identity namespace selector s).1 ≡ ok tt)
        × (holds (local_unlock api names lease_namespace now identity namespace selector s).0 key
            ≡ none)
  unfolding local_unlock release
  local_unlock_unread now s x e n d =
      ground (arith, eq_iff identity identity, server.delete_done s key d)

  unlock_own :
      (now : ℕ) (s : Store) (l : Lease)
      → api.get s key ≡ ok l
      → l.spec.holder_identity ≡ some identity
      → (api.delete s key).1 ≡ none
      → ((local_unlock api names lease_namespace now identity namespace selector s).1 ≡ ok tt)
        × (holds (local_unlock api names lease_namespace now identity namespace selector s).0 key
            ≡ none)
  unfolding local_unlock release
  unlock_own now s l g h d =
      ground
        (arith, (server.get_done s key l g).1, eq_iff identity identity, server.delete_done s key d)

  -- Over an available server, LocalUnlock gives back what LocalLock obtained.
  pub local_unlock-local_lock :
      IsAvailable api holds
      → (clock : Clock) (now : ℕ) (s : Store)
      → (local_lock api names lease_namespace clock identity namespace selector s).1 ≡ ok tt
      → let s' = (local_lock api names lease_namespace clock identity namespace selector s).0 in
        ((local_unlock api names lease_namespace now identity namespace selector s').1 ≡ ok tt)
        × (holds (local_unlock api names lease_namespace now identity namespace selector s').0 key
            ≡ none)
  local_unlock-local_lock up clock now s h =
      let s' = (local_lock api names lease_namespace clock identity namespace selector s).0 in
      let (m, held, o) =
        local_lock-ok api holds server names lease_namespace identity namespace selector clock s
          h in
      let g = up.get_held s' key m held in
      let k = (server.get_done s' key m g).1 in
      let mine = Obtained-holder clock identity (holds s key) m.spec o in
      unlock_own now s' m g mine (up.delete_held s' key m held)

  released :
      IsAvailable api holds
      → (now : ℕ) (s : Store) (l : Lease) → holds s key ≡ some l
      → (o : Option String) → l.spec.holder_identity ≡ o
      → ((local_unlock api names lease_namespace now identity namespace selector s).1 ≡ ok tt)
        ↔ (o ≡ some identity)
  unfolding local_unlock release check_holder
  released up now s l held none h =
      let g = up.get_held s key l held in rw (g, h) ((λ e. cc), (λ e. cc))
  released up now s l held (some holder) h =
      let g = up.get_held s key l held in
      elim (Bool-cases (holder == identity)) [
        | inl same ↦ (
          (λ e. ap some ((eq_iff holder identity).0 same)),
          (λ e. (unlock_own now s l g (h ∙ e) (up.delete_held s key l held)).0),
        )
        | inr other ↦ rw (g, h, other) ((λ e. cc), (λ e. ground (arith, eq_iff holder identity)))
      ]

  -- Over an available server, LocalUnlock succeeds exactly if there is no lease for the selector or the
  -- lease names the caller as its holder.
  pub local_unlock-ok_iff :
      IsAvailable api holds
      → (now : ℕ) (s : Store)
      → ((local_unlock api names lease_namespace now identity namespace selector s).1 ≡ ok tt) ↔ (
          (holds s key ≡ none)
          ⊎ ((l : Lease) × (holds s key ≡ some l) × (l.spec.holder_identity ≡ some identity)))
  unfolding local_unlock release
  local_unlock-ok_iff up now s = elim (Option-cases (holds s key)) [
    | inl free ↦ let g = up.get_absent s key free in ((λ e. inl free), (λ o. rw g refl))
    | inr (l, held) ↦
        let it = released up now s l held l.spec.holder_identity refl in
        (
          (λ e. inr (l, held, it.0 e)),
          (λ o. elim o [
            | inl free ↦ cc
            | inr (m, h, mine) ↦
                let same : m ≡ l = some_inj (sym h ∙ held) in
                it.1 (subst (λ (x : Lease). x.spec.holder_identity ≡ some identity) same mine)
          ]),
        )
  ]
