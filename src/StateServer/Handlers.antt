-- ===== src/StateServer/Handlers.antt =====
-- What the state server does for the requests of another cluster.
use x_pdb.Prelude.{
  ◌≡◌, refl, ap, subst, ◌∙◌, sym, String, true, none, some, Option, arith, Result, ok, err, fault,
}
use x_pdb.Api.{LabelSelector}
use x_pdb.Proto.{LockRequest, LockResponse, UnlockRequest, UnlockResponse}
use x_pdb.Converters.{convert_label_selector_to_state}
use x_pdb.Converters.RoundTrip.{to_meta_v1-to_state}
use x_pdb.Lease.{Naming, Key, Lease}
use x_pdb.LeaseApi.{LeaseApi, IsServer}
use x_pdb.Lock.Local.{Clock, local_lock, local_unlock}
use x_pdb.Lock.Local.Safety.{lock_key, local_lock-ok, Obtained-holder}
use x_pdb.Lock.Local.Unlock.{local_unlock-ok}
use x_pdb.StateServer.{lock, lock_response, unlock, unlock_response}

module _ {S : Type 0} (api : LeaseApi S) (holds : S → Key → Option Lease)
    (server : IsServer api holds) (names : Naming) (lease_namespace : String) where
  -- Where the lease of a selector says who holds it.
  abbrev pub HeldBy : String → String → LabelSelector → S → Type 0
  HeldBy identity namespace selector s =
      (m : Lease) × (holds s (lock_key names lease_namespace namespace selector) ≡ some m)
      × (m.spec.holder_identity ≡ some identity)

  abbrev pub request_for : String → String → LabelSelector → LockRequest
  request_for identity namespace selector = record {
    lease_holder_identity = identity;
    namespace = namespace;
    label_selector = convert_label_selector_to_state selector;
  }

  handled :
      (clock : Clock) (s : S) (identity namespace : String) (selector : LabelSelector)
      → lock api names lease_namespace clock s (request_for identity namespace selector) ≡ (
        (local_lock api names lease_namespace clock identity namespace selector s).0,
        lock_response (local_lock api names lease_namespace clock identity namespace selector s).1,
      )
  unfolding lock
  handled clock s identity namespace selector i = (
    (local_lock api names lease_namespace clock identity namespace (to_meta_v1-to_state selector i)
        s).0,
    lock_response
        (local_lock api names lease_namespace clock identity namespace
          (to_meta_v1-to_state selector i) s).1,
  )

  lock_response-acquired :
      (r : Result (Unit {0})) (x : LockResponse)
      → lock_response r ≡ ok x
      → x.acquired ≡ true
      → r ≡ ok tt
  unfolding lock_response
  lock_response-acquired (ok tt) x e a = refl
  lock_response-acquired (err f) x e a = ground arith
  lock_response-acquired fault x e a = cc

  -- A state server that confirms a lock to another cluster has written the holder that the cluster named
  -- to the lease, and this is the lease that it takes for its own pods of the same selector.
  pub lock-acquires :
      (clock : Clock) (s : S) (identity namespace : String) (selector : LabelSelector)
      (x : LockResponse)
      → (lock api names lease_namespace clock s (request_for identity namespace selector)).1 ≡ ok x
      → x.acquired ≡ true
      → HeldBy identity namespace selector
          (lock api names lease_namespace clock s (request_for identity namespace selector)).0
  lock-acquires clock s identity namespace selector x e a =
      let h = handled clock s identity namespace selector in
      let r = local_lock api names lease_namespace clock identity namespace selector s in
      let done = lock_response-acquired r.1 x (sym (ap (λ p. p.1) h) ∙ e) a in
      let (m, p, o) =
        local_lock-ok api holds server names lease_namespace identity namespace selector clock s
          done in
      subst (HeldBy identity namespace selector) (sym (ap (λ p. p.0) h)) (
        m,
        p,
        Obtained-holder clock identity (holds s (lock_key names lease_namespace namespace selector))
            m.spec o,
      )

  -- There is no lease for the selector.
  abbrev pub Free : String → LabelSelector → S → Type 0
  Free namespace selector s = holds s (lock_key names lease_namespace namespace selector) ≡ none

  abbrev pub unlock_request_for : String → String → LabelSelector → UnlockRequest
  unlock_request_for identity namespace selector = record {
    lease_holder_identity = identity;
    namespace = namespace;
    label_selector = convert_label_selector_to_state selector;
  }

  handled_unlock :
      (clock : Clock) (s : S) (identity namespace : String) (selector : LabelSelector)
      → unlock api names lease_namespace clock s (unlock_request_for identity namespace selector)
        ≡ (
          (local_unlock api names lease_namespace clock.created identity namespace selector s).0,
          unlock_response
              (local_unlock api names lease_namespace clock.created identity namespace selector
                s).1,
        )
  unfolding unlock
  handled_unlock clock s identity namespace selector i =
      let r =
        local_unlock api names lease_namespace clock.created identity namespace
          (to_meta_v1-to_state selector i) s in
      (r.0, unlock_response r.1)

  unlock_response-unlocked :
      (r : Result (Unit {0})) (x : UnlockResponse)
      → unlock_response r ≡ ok x
      → x.unlocked ≡ true
      → r ≡ ok tt
  unfolding unlock_response
  unlock_response-unlocked (ok tt) x e a = refl
  unlock_response-unlocked (err f) x e a = ground arith
  unlock_response-unlocked fault x e a = cc

  -- After a state server confirms that it has unlocked, its cluster has no lease for the selector.
  pub unlock-frees :
      (clock : Clock) (s : S) (identity namespace : String) (selector : LabelSelector)
      (x : UnlockResponse)
      → (unlock api names lease_namespace clock s
          (unlock_request_for identity namespace selector)).1
        ≡ ok x
      → x.unlocked ≡ true
      → Free namespace selector
          (unlock api names lease_namespace clock s
            (unlock_request_for identity namespace selector)).0
  unlock-frees clock s identity namespace selector x e a =
      let h = handled_unlock clock s identity namespace selector in
      let r = local_unlock api names lease_namespace clock.created identity namespace selector s in
      let done = unlock_response-unlocked r.1 x (sym (ap (λ p. p.1) h) ∙ e) a in
      let gone =
        local_unlock-ok api holds server names lease_namespace identity namespace selector
          clock.created s done in
      subst (Free namespace selector) (sym (ap (λ p. p.0) h)) gone
