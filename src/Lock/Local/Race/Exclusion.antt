-- ===== src/Lock/Local/Race/Exclusion.antt =====
-- One holder at a time, whatever the order of the calls.
use x_pdb.Prelude.{
  ℕ, ◌+◌, ◌≤◌, ◌<◌, ◌≡◌, sym, ap, ◌∙◌, subst, some_inj, inl, String, Option, put, put_elim, arith,
}
use x_pdb.Api.{LabelSelector}
use x_pdb.Lease.{Lease, Key, Naming}
use x_pdb.LeaseApi.{LeaseApi, IsServer, IsVersioned}
use x_pdb.Lock.Local.Safety.{lock_key}
use x_pdb.Lock.Local.Race.{holding, asking, deleting, advance}
use x_pdb.Lock.Local.Race.System.{
  System, moved, Step, wait, act, elsewhere, unlock, Reach, here, later, start,
}
use x_pdb.Lock.Local.Race.Facts.{
  lifetime, Known, Regular, Effect-Regular, Effect-Known, Known-later, NamedIn,
}
use x_pdb.Lock.Local.Race.Calls.{advance-Ends}

-- A request may take any step, but calls Delete only before the lease that it obtained runs out, by the
-- clock that is furthest ahead.
abbrev pub Prompt : {Store : Type 0} → ℕ → System Store → ℕ → Type 0
Prompt ahead s i = (time : ℕ) (k : Key) → s.pc i ≡ deleting time k → s.now + ahead < time + lifetime

module _ {Store : Type 0} (api : LeaseApi Store) (holds : Store → Key → Option Lease)
    (revision : Store → ℕ) (server : IsServer api holds) (versions : IsVersioned api holds revision)
    (names : Naming) (lease_namespace namespace : String) (selector : LabelSelector)
    (identity_of : ℕ → String) (apart : (i j : ℕ) → identity_of i ≡ identity_of j → i ≡ j)
    (ahead : ℕ) where
  abbrev key : Key
  key = lock_key names lease_namespace namespace selector

  record Invariant (s : System Store) : Type 0 where
    regular : Regular holds revision key s.store
    known : (i : ℕ) → Known holds revision key (s.now + ahead) s.store (identity_of i) (s.pc i)

  moved-Invariant :
      (s : System Store) (i t : ℕ)
      → t ≤ s.now + ahead
      → Prompt ahead s i
      → Invariant s
      → Invariant
          (moved api holds revision names lease_namespace namespace selector identity_of s i t)
  moved-Invariant s i t b prompt inv =
      let high = s.now + ahead in
      let (effect, own) =
        advance-Ends api holds revision server versions names lease_namespace namespace selector
          high t (identity_of i) s.store (s.pc i) b inv.regular (inv.known i) prompt in
      let after =
        (advance api names lease_namespace namespace selector (identity_of i) t s.store
          (s.pc i)).0 in
      record {
        regular =
            Effect-Regular holds revision key high (identity_of i) s.store after effect inv.regular;
        known =
            put_elim (λ j. Known holds revision key high after (identity_of j)) s.pc i _ own
              (λ j n.
                Effect-Known holds revision key high (identity_of i) (identity_of j) s.store after
                  (s.pc j) (λ e. n (apart i j e)) inv.regular effect (inv.known j));
      }

  -- A step of the rest of the cluster.
  elsewhere-Invariant :
      (s : System Store) (t : Store)
      → holds t key ≡ holds s.store key
      → revision s.store ≤ revision t
      → Invariant s
      → Invariant (record s { store = t })
  elsewhere-Invariant s t same up inv = record {
    regular =
        Effect-Regular holds revision key (s.now + ahead) "" s.store t (up, inl same) inv.regular;
    known = λ i.
        Effect-Known holds revision key (s.now + ahead) (identity_of (i + 1)) (identity_of i)
          s.store t (s.pc i) (λ e. let f = apart (i + 1) i e in omega arith) inv.regular
          (up, inl same) (inv.known i);
  }

  unlock-Invariant :
      (s : System Store) (i time : ℕ)
      → s.pc i ≡ holding time
      → Invariant s
      → Invariant (record s { pc = put s.pc i (asking time) })
  unlock-Invariant s i time e inv = record {
    regular = inv.regular;
    known =
        put_elim (λ j. Known holds revision key (s.now + ahead) s.store (identity_of j)) s.pc i
          (asking time)
          (subst (λ p. Known holds revision key (s.now + ahead) s.store (identity_of i) p) e
            (inv.known i))
          (λ j n. inv.known j);
  }

  Step-Invariant :
      {s t : System Store}
      → Step api holds revision names lease_namespace namespace selector identity_of ahead
          (Prompt ahead)
          s
          t
      → Invariant s
      → Invariant t
  Step-Invariant {s} (wait d) inv = record {
    regular = inv.regular;
    known = λ i.
        subst (λ n. Known holds revision key n s.store (identity_of i) (s.pc i))
          {x = s.now + ahead + d} (omega arith)
          (Known-later holds revision key (s.now + ahead) d s.store (identity_of i) (s.pc i)
            (inv.known i));
  }
  Step-Invariant {s} (act i t b prompt) inv = moved-Invariant s i t b prompt inv
  Step-Invariant {s} (elsewhere t same up) inv = elsewhere-Invariant s t same up inv
  Step-Invariant {s} (unlock i time e) inv = unlock-Invariant s i time e inv

  Reach-Invariant :
      {now : ℕ} {store : Store} {s : System Store}
      → Regular holds revision key store
      → Reach api holds revision names lease_namespace namespace selector identity_of ahead
          (Prompt ahead)
          (start now store)
          s
      → Invariant s
  Reach-Invariant g here = record { regular = g; known = λ i. tt }
  Reach-Invariant g (later r st) = Step-Invariant st (Reach-Invariant g r)

  -- In every state that requests with different identities reach over a server that keeps its laws, a
  -- request whose LocalLock succeeded is the holder that the lease names, with the time at which it was
  -- taken, until its five seconds are over by the clock that is furthest ahead, whatever the other
  -- requests do meanwhile and however far their clocks are behind. This holds where the first lease lasts
  -- five seconds, no clock is ahead of the time by more than `ahead`, and every Delete runs, by such a
  -- clock, before the lease of its own request has run out.
  pub holding-NamedIn :
      {now : ℕ} {store : Store} {s : System Store}
      → Regular holds revision key store
      → Reach api holds revision names lease_namespace namespace selector identity_of ahead
          (Prompt ahead)
          (start now store)
          s
      → (i time : ℕ) → s.pc i ≡ holding time
      → s.now + ahead < time + lifetime
      → NamedIn holds revision key s.store (identity_of i) time
  holding-NamedIn {s = s} g r i time e =
      subst (λ p. Known holds revision key (s.now + ahead) s.store (identity_of i) p) e
        ((Reach-Invariant g r).known i)

  -- In every state that requests with different identities reach over a server that keeps its laws, two
  -- requests never hold the lock at once: of two whose LocalLock succeeded, the five seconds of one are
  -- over by the clock that is furthest ahead, however far the clocks are behind. This holds where the
  -- first lease lasts five seconds, no clock is ahead of the time by more than `ahead`, and every Delete
  -- runs, by such a clock, before the lease of its own request has run out.
  pub mutual_exclusion :
      {now : ℕ} {store : Store} {s : System Store}
      → Regular holds revision key store
      → Reach api holds revision names lease_namespace namespace selector identity_of ahead
          (Prompt ahead)
          (start now store)
          s
      → (i j a b : ℕ) → s.pc i ≡ holding a
      → s.pc j ≡ holding b
      → s.now + ahead < a + lifetime
      → s.now + ahead < b + lifetime
      → i ≡ j
  mutual_exclusion g r i j a b p q fresh fresh' =
      let (l, h, o, t) = holding-NamedIn g r i a p fresh in
      let (m, h', o', t') = holding-NamedIn g r j b q fresh' in
      let same = ap (λ (x : Lease). x.spec.holder_identity) (some_inj (sym h ∙ h')) in
      apart i j (some_inj (sym o ∙ same ∙ o'))
