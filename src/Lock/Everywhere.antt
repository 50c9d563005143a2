-- ===== src/Lock/Everywhere.antt =====
-- The lock on all clusters: what it takes for Lock and Unlock to succeed.
use x_pdb.Prelude.{◌≡◌, refl, ◌↔◌, String, List, ◌∷◌, arith, Result, ok, err, fault}
use x_pdb.Api.{LabelSelector}
use x_pdb.Proto.{LockRequest, LockResponse, UnlockRequest, UnlockResponse}
use x_pdb.Converters.{convert_label_selector_to_state}
use x_pdb.Lease.{Naming}
use x_pdb.LeaseApi.{LeaseApi}
use x_pdb.Remote.{StateClients, ResultPool, IsResultPool, run_tasks}
use x_pdb.Lock.Confirm.{AllConfirmed, wait-joined_iff}
use x_pdb.Lock.{
  not_acquired, not_unlocked, labelled, lock_task, unlock_task, all_acquired, all_unlocked,
  then_remote, remote_lock, remote_unlock, lock, unlock,
}
use x_pdb.Lock.Local.{Clock, local_lock, local_unlock}

module _ {W Client : Type 0} (clients : StateClients W Client) (pool : ResultPool)
    (law : IsResultPool pool) where
  all_acquired_iff :
      (w : W) (rs : List (Result LockResponse))
      → ((all_acquired clients pool (w, rs)).1 ≡ ok tt) ↔ AllConfirmed (λ r. r.acquired) rs
  unfolding all_acquired not_acquired
  all_acquired_iff w rs =
      wait-joined_iff (λ r. r.acquired) not_acquired refl (λ x xs e. ground arith)
        (λ x xs e p. ground arith) pool law rs

  all_unlocked_iff :
      (w : W) (rs : List (Result UnlockResponse))
      → ((all_unlocked clients pool (w, rs)).1 ≡ ok tt) ↔ AllConfirmed (λ r. r.unlocked) rs
  unfolding all_unlocked not_unlocked
  all_unlocked_iff w rs =
      wait-joined_iff (λ r. r.unlocked) not_unlocked refl (λ x xs e. ground arith)
        (λ x xs e p. ground arith) pool law rs

  then_remote-ok_iff :
      (local_text remote_text : String) (remote : W → W × Result (Unit {0}))
      (p : W × Result (Unit {0}))
      → ((then_remote clients pool local_text remote_text remote p).1 ≡ ok tt)
        ↔ ((p.1 ≡ ok tt) × ((remote p.0).1 ≡ ok tt))
  unfolding then_remote labelled
  then_remote-ok_iff local_text remote_text remote (w, ok u) = ground arith
  then_remote-ok_iff local_text remote_text remote (w, err e) = ground arith
  then_remote-ok_iff local_text remote_text remote (w, fault) = ground arith

  then_remote_world :
      (local_text remote_text : String) (remote : W → W × Result (Unit {0}))
      (p : W × Result (Unit {0}))
      → p.1 ≡ ok tt
      → (then_remote clients pool local_text remote_text remote p).0 ≡ (remote p.0).0
  unfolding then_remote
  then_remote_world local_text remote_text remote (w, ok u) e = refl
  then_remote_world local_text remote_text remote (w, err x) e = cc
  then_remote_world local_text remote_text remote (w, fault) e = cc

  module _ (api : LeaseApi W) (names : Naming) (lease_namespace endpoint : String)
      (endpoints schedule : List String) (clock : Clock) (identity namespace : String)
      (selector : LabelSelector) (w : W) where
    abbrev pub locally : W × Result (Unit {0})
    locally = local_lock api names lease_namespace clock identity namespace selector w

    abbrev pub lock_request : LockRequest
    lock_request = record {
      lease_holder_identity = identity;
      namespace = namespace;
      label_selector = convert_label_selector_to_state selector;
    }

    -- Lock succeeds exactly if the local cluster gives the lock and every remote cluster that is asked
    -- confirms it.
    pub lock-ok_iff :
        ((lock clients pool api names lease_namespace
            (endpoint ∷ endpoints)
            schedule
            clock
            identity
            namespace
            selector
            w).1
          ≡ ok tt)
        ↔ ((locally.1 ≡ ok tt)
            × AllConfirmed
                (λ r. r.acquired)
                (run_tasks (lock_task clients pool lock_request) schedule locally.0).1)
    unfolding lock remote_lock
    lock-ok_iff =
        let tasks = run_tasks (lock_task clients pool lock_request) schedule locally.0 in
        let (forth, back) =
          then_remote-ok_iff "unable to lock local cluster" "unable to lock remote clusters"
            (remote_lock clients pool (endpoint ∷ endpoints) schedule identity namespace selector)
            locally in
        let (forth', back') = all_acquired_iff tasks.0 tasks.1 in
        ((λ e. let (l, r) = forth e in (l, forth' r)), (λ (l, a). back (l, back' a)))

    -- Where the local cluster gives the lock, the calls of the other clusters are all that follows.
    pub lock_world :
        locally.1 ≡ ok tt
        → (lock clients pool api names lease_namespace
            (endpoint ∷ endpoints)
            schedule
            clock
            identity
            namespace
            selector
            w).0
          ≡ (run_tasks (lock_task clients pool lock_request) schedule locally.0).0
    unfolding lock remote_lock all_acquired
    lock_world done =
        then_remote_world "unable to lock local cluster" "unable to lock remote clusters"
          (remote_lock clients pool (endpoint ∷ endpoints) schedule identity namespace selector)
          locally done

    abbrev pub locally_unlocked : W × Result (Unit {0})
    locally_unlocked =
        local_unlock api names lease_namespace clock.created identity namespace selector w

    abbrev pub unlock_request : UnlockRequest
    unlock_request = record {
      lease_holder_identity = identity;
      namespace = namespace;
      label_selector = convert_label_selector_to_state selector;
    }

    -- The same for Unlock.
    pub unlock-ok_iff :
        ((unlock clients pool api names lease_namespace
            (endpoint ∷ endpoints)
            schedule
            clock
            identity
            namespace
            selector
            w).1
          ≡ ok tt)
        ↔ ((locally_unlocked.1 ≡ ok tt)
            × AllConfirmed
                (λ r. r.unlocked)
                (run_tasks (unlock_task clients pool unlock_request) schedule locally_unlocked.0).1)
    unfolding unlock remote_unlock
    unlock-ok_iff =
        let tasks =
          run_tasks (unlock_task clients pool unlock_request) schedule locally_unlocked.0 in
        let (forth, back) =
          then_remote-ok_iff "unable to unlock local cluster" "unable to unlock remote clusters"
            (remote_unlock clients pool (endpoint ∷ endpoints) schedule identity namespace selector)
            locally_unlocked in
        let (forth', back') = all_unlocked_iff tasks.0 tasks.1 in
        ((λ e. let (l, r) = forth e in (l, forth' r)), (λ (l, a). back (l, back' a)))

    pub unlock_world :
        locally_unlocked.1 ≡ ok tt
        → (unlock clients pool api names lease_namespace
            (endpoint ∷ endpoints)
            schedule
            clock
            identity
            namespace
            selector
            w).0
          ≡ (run_tasks (unlock_task clients pool unlock_request) schedule locally_unlocked.0).0
    unfolding unlock remote_unlock all_unlocked
    unlock_world done =
        then_remote_world "unable to unlock local cluster" "unable to unlock remote clusters"
          (remote_unlock clients pool (endpoint ∷ endpoints) schedule identity namespace selector)
          locally_unlocked done
