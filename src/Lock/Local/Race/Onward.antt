-- ===== src/Lock/Local/Race/Onward.antt =====
-- A request that obtained the lock does so once.
use x_pdb.Prelude.{
  ℕ, ◌≤◌, ◌≡◌, inl, inr, String, Option, none, some, put, put_elim, arith, Bool-cases, Error,
  Result, ok, err, fault, ◌==◌,
}
use x_pdb.Api.{LabelSelector}
use x_pdb.Lease.{Key, Lease, Naming}
use x_pdb.LeaseApi.{LeaseApi, is_not_found}
use x_pdb.Lock.Local.Race.{
  Pc, starting, creating, reading, found, expired, updating, holding, refused, asking, deleting,
  released, advance, compared, after_ask, after_delete, lease_at,
}
use x_pdb.Lock.Local.Race.System.{System, Step, wait, act, elsewhere, unlock}
use x_pdb.Lock.Local.Race.Exclusion.{Prompt}

-- A request that holds the lock, or has begun to give it back.
abbrev pub Past : Pc → Type 0
Past starting = ⊥
Past (creating time) = ⊥
Past reading = ⊥
Past (found lease) = ⊥
Past (expired lease) = ⊥
Past (updating lease time) = ⊥
Past (holding time) = Unit
Past (refused r) = ⊥
Past (asking time) = Unit
Past (deleting time k) = Unit
Past (released r) = Unit

-- A request that comes from `p` is past, and holds the lock only if it held it before.
abbrev pub Onward : Pc → Pc → Type 0
Onward p q = Past q × ((time : ℕ) → q ≡ holding time → p ≡ holding time)

module _ {Store : Type 0} (api : LeaseApi Store) (holds : Store → Key → Option Lease)
    (revision : Store → ℕ) (names : Naming) (lease_namespace namespace : String)
    (selector : LabelSelector) where
  compared-Onward :
      (p : Pc) (time : ℕ) (identity : String) (s : Store) (k : Key) (holder : Option String)
      → Onward p (compared api time identity s k holder).1
  unfolding compared
  compared-Onward p time identity s k none = (tt, λ t e. cc)
  compared-Onward p time identity s k (some o) = elim (Bool-cases (o == identity)) [
    | inl same ↦ rw same (tt, λ t e. cc)
    | inr other ↦ rw other (tt, λ t e. cc)
  ]

  after_ask-Onward :
      (p : Pc) (time : ℕ) (identity : String) (s : Store) (l : Lease) (r : Result Lease)
      → Onward p (after_ask api time identity s l r).1
  unfolding after_ask
  after_ask-Onward p time identity s l (ok m) =
      compared-Onward p time identity s m.key m.spec.holder_identity
  after_ask-Onward p time identity s l (err e) = elim (Bool-cases (is_not_found e)) [
    | inl gone ↦ rw gone (tt, λ t q. cc)
    | inr unread ↦ rw unread (compared-Onward p time identity s l.key l.spec.holder_identity)
  ]
  after_ask-Onward p time identity s l fault = (tt, λ t e. cc)

  after_delete-Onward : (p : Pc) (c : Store × Option Error) → Onward p (after_delete api c).1
  unfolding after_delete
  after_delete-Onward p (s, none) = (tt, λ t e. cc)
  after_delete-Onward p (s, some x) = (tt, λ t e. cc)

  -- A request that is past never obtains the lock again.
  advance-Onward :
      (identity : String) (t : ℕ) (s : Store) (p : Pc)
      → Past p
      → Onward p (advance api names lease_namespace namespace selector identity t s p).1
  unfolding advance
  advance-Onward identity t s starting past = absurd past
  advance-Onward identity t s (creating time) past = absurd past
  advance-Onward identity t s reading past = absurd past
  advance-Onward identity t s (found l) past = absurd past
  advance-Onward identity t s (expired l) past = absurd past
  advance-Onward identity t s (updating l time) past = absurd past
  advance-Onward identity t s (holding time) past = (tt, λ u e. e)
  advance-Onward identity t s (refused r) past = absurd past
  advance-Onward identity t s (asking time) past =
      let lease = lease_at api names lease_namespace namespace selector t identity in
      after_ask-Onward (asking time) time identity s lease (api.get s lease.key)
  advance-Onward identity t s (deleting time k) past =
      after_delete-Onward (deleting time k) (api.delete s k)
  advance-Onward identity t s (released r) past = (tt, λ u e. e)

  put-Onward :
      (pc : ℕ → Pc) (i j : ℕ) (q : Pc)
      → (Past (pc i) → Onward (pc i) q)
      → Past (pc j)
      → Onward (pc j) (put pc i q j)
  put-Onward pc i j q next past =
      put_elim (λ j p. Past (pc j) → Onward (pc j) p) pc i q next (λ j n past. (past, λ t h. h)) j
        past

  module _ (identity_of : ℕ → String) (ahead : ℕ) where
    -- A step of the requests or of the leases: time does not go back, and no request that is past obtains
    -- the lock.
    pub Step-Onward :
        {s t : System Store}
        → Step api holds revision names lease_namespace namespace selector identity_of ahead
            (Prompt ahead)
            s
            t
        → (s.now ≤ t.now) × ((i : ℕ) → Past (s.pc i) → Onward (s.pc i) (t.pc i))
    Step-Onward (wait d) = (omega arith, λ i past. (past, λ u e. e))
    Step-Onward {s} (act i u b prompt) = (
      omega arith,
      λ j. put-Onward s.pc i j _ (advance-Onward (identity_of i) u s.store (s.pc i)),
    )
    Step-Onward (elsewhere u same up) = (omega arith, λ i past. (past, λ v e. e))
    Step-Onward {s} (unlock i time e) =
        (omega arith, λ j. put-Onward s.pc i j _ (λ past. (tt, λ u q. cc)))
