-- ===== src/Examples/Network.antt =====
-- Two clusters: the local one and the one behind the endpoint "east".
use mathlib.Core.List.{Permᴰ}
use x_pdb.Prelude.{
  ◌≡◌, refl, String, Option, none, [], ◌∷◌, arith, ◌==◌, eq_iff, if◌then◌else◌, Result, ok, ◌↔◌,
}
use x_pdb.Lease.{Key, Lease}
use x_pdb.LeaseApi.{LeaseApi, IsServer}
use x_pdb.LeaseApi.Memory.{Memory, memory, held, memory-IsServer}
use x_pdb.Remote.{run_tasks, StateClients}
use x_pdb.Lock
use x_pdb.Lock.{lock_task}
use x_pdb.Lock.Confirm.{AllConfirmed}
use x_pdb.Lock.Everywhere.{lock-ok_iff}
use x_pdb.Lock.Local.{local_lock, local_unlock}
use x_pdb.StateServer
use x_pdb.StateServer.Handlers.{HeldBy, request_for}
use x_pdb.Lock.Local.Safety.{lock_key}
use x_pdb.StateServer.Network.{IsNetwork}
use x_pdb.StateServer.Network.Locking.{AllHeld, lock-HoldsEverywhere}
use x_pdb.StateServer.Network.Unlocking.{AllFree, unlocking, unlock-FreesEverywhere}
use x_pdb.Examples.Budgets.{cluster}
use x_pdb.Pdb.{Cluster}
use x_pdb.Examples.Scales.{reader, owned}
use x_pdb.Examples.Gather.{in_order, in_order-IsResultPool}
use x_pdb.Examples.{names, selector, clock, empty, full, lease_of}

-- The leases of the local cluster, and those of the others by their endpoints.
abbrev pub Clusters : Type 0
Clusters = Memory × (String → Memory)

abbrev pub local_leases : LeaseApi Clusters
local_leases = record {
  create = λ w l. let r = memory.create w.0 l in ((r.0, w.1), r.1);
  get = λ w k. memory.get w.0 k;
  update = λ w l. let r = memory.update w.0 l in ((r.0, w.1), r.1);
  delete = λ w k. let r = memory.delete w.0 k in ((r.0, w.1), r.1);
}

abbrev pub local_held : Clusters → Key → Option Lease
local_held w k = held w.0 k

pub local_leases-IsServer : IsServer local_leases local_held
local_leases-IsServer = record {
  create_done = λ w. memory-IsServer.create_done w.0;
  create_exists = λ w. memory-IsServer.create_exists w.0;
  create_unsure = λ w. memory-IsServer.create_unsure w.0;
  create_other = λ w. memory-IsServer.create_other w.0;
  get_done = λ w. memory-IsServer.get_done w.0;
  get_missing = λ w. memory-IsServer.get_missing w.0;
  get_returns = λ w. memory-IsServer.get_returns w.0;
  update_done = λ w. memory-IsServer.update_done w.0;
  update_unsure = λ w. memory-IsServer.update_unsure w.0;
  update_other = λ w. memory-IsServer.update_other w.0;
  delete_done = λ w. memory-IsServer.delete_done w.0;
  delete_unsure = λ w. memory-IsServer.delete_unsure w.0;
  delete_other = λ w. memory-IsServer.delete_other w.0;
}

abbrev put_at : String → Memory → Clusters → Clusters
put_at c s w = (w.0, λ e. if e == c then s else w.1 e)

-- Three pods, all ready, of a StatefulSet that is to have three.
abbrev pub busy : Cluster
busy = record cluster { scales = reader; list_pods = λ ns sel. ok (owned ∷ owned ∷ owned ∷ []) }

-- Every endpoint can be reached, and every cluster shows the same pods.
abbrev pub direct : StateClients Clusters String
direct = record {
  pool_get = λ w e. (w, ok e);
  lock = λ w c req.
      let r = StateServer.lock memory names "x-pdb" clock (w.1 c) req in (put_at c r.0 w, r.1);
  unlock = λ w c req.
      let r = StateServer.unlock memory names "x-pdb" clock (w.1 c) req in (put_at c r.0 w, r.1);
  get_state = λ w c req. (w, StateServer.get_state busy req);
}

pub direct-IsNetwork : IsNetwork direct local_held memory names (λ e. "x-pdb") (λ w. w.1) (λ c. c)
direct-IsNetwork = record {
  get_target = λ w e c h. ground arith;
  get_stores = λ w e f. refl;
  get_local = λ w e k. refl;
  lock_served = λ w c req x h. (clock, ground (arith, h, eq_iff c c));
  lock_other = λ w c req f n. ground (arith, eq_iff f c);
  lock_local = λ w c req k. refl;
  unlock_served = λ w c req x h. (clock, ground (arith, h, eq_iff c c));
  unlock_other = λ w c req f n. ground (arith, eq_iff f c);
  unlock_local = λ w c req k. refl;
}

abbrev pub east_free : Clusters
east_free = (full (lease_of "them" 0), λ e. empty)

locked :
    (Lock.lock direct in_order local_leases names "x-pdb"
      ("east" ∷ [])
      ("east" ∷ [])
      clock
      "us"
      "shop"
      selector
      east_free).1
    ≡ ok tt
unfolding Lock.lock memory StateServer.lock local_lock
locked = refl

lock-HoldsEverywhere_example :
    HeldBy local_leases local_held local_leases-IsServer names "x-pdb" "us" "shop" selector
      (Lock.lock direct in_order local_leases names "x-pdb"
        ("east" ∷ [])
        ("east" ∷ [])
        clock
        "us"
        "shop"
        selector
        east_free).0
    × AllHeld direct local_held memory held memory-IsServer names
        (λ e. "x-pdb")
        (λ w. w.1)
        (λ c. c)
        direct-IsNetwork
        in_order
        "us"
        "shop"
        selector
        ("east" ∷ [])
        (Lock.lock direct in_order local_leases names "x-pdb"
          ("east" ∷ [])
          ("east" ∷ [])
          clock
          "us"
          "shop"
          selector
          east_free).0
lock-HoldsEverywhere_example =
    lock-HoldsEverywhere direct local_held memory held memory-IsServer names (λ e. "x-pdb")
      (λ w. w.1) (λ c. c) direct-IsNetwork in_order "us" "shop" selector in_order-IsResultPool
      local_leases local_leases-IsServer "x-pdb" "east" [] ("east" ∷ []) (Permᴰ.cons refl Permᴰ.nil)
      clock east_free locked

-- Here the lease has run out, and in the other cluster it has not.
abbrev pub east_held : Clusters
east_held = (full (lease_of "them" 0), λ e. full (lease_of "them" 9_000_000))

lock-ok_iff_example :
    ((Lock.lock direct in_order local_leases names "x-pdb"
        ("east" ∷ [])
        ("east" ∷ [])
        clock
        "us"
        "shop"
        selector
        east_free).1
      ≡ ok tt)
    ↔ (((local_lock local_leases names "x-pdb" clock "us" "shop" selector east_free).1 ≡ ok tt)
        × AllConfirmed
            (λ r. r.acquired)
            (run_tasks
              (lock_task direct in_order
                (request_for memory held memory-IsServer names "x-pdb" "us" "shop" selector))
              ("east" ∷ [])
              (local_lock local_leases names "x-pdb" clock "us" "shop" selector east_free).0).1)
lock-ok_iff_example =
    lock-ok_iff direct in_order in_order-IsResultPool local_leases names "x-pdb" "east" []
      ("east" ∷ []) clock "us" "shop" selector east_free

abbrev ours : Clusters
ours = (full (lease_of "us" 0), λ e. full (lease_of "us" 0))

abbrev unlocked : Clusters × Result (Unit {0})
unlocked =
    unlocking direct local_held memory held memory-IsServer names (λ e. "x-pdb") (λ w. w.1) (λ c. c)
      direct-IsNetwork in_order "us" "shop" selector in_order-IsResultPool local_leases
      local_leases-IsServer "x-pdb" "east" [] ("east" ∷ []) clock ours

freed : unlocked.1 ≡ ok tt
unfolding Lock.unlock memory StateServer.unlock local_unlock
freed = refl

unlock-FreesEverywhere_example :
    (local_held unlocked.0 (lock_key names "x-pdb" "shop" selector) ≡ none)
    × AllFree direct local_held memory held memory-IsServer names
        (λ e. "x-pdb")
        (λ w. w.1)
        (λ c. c)
        direct-IsNetwork
        in_order
        "us"
        "shop"
        selector
        ("east" ∷ [])
        unlocked.0
unlock-FreesEverywhere_example =
    unlock-FreesEverywhere direct local_held memory held memory-IsServer names (λ e. "x-pdb")
      (λ w. w.1) (λ c. c) direct-IsNetwork in_order "us" "shop" selector in_order-IsResultPool
      local_leases local_leases-IsServer "x-pdb" "east" [] ("east" ∷ []) (Permᴰ.cons refl Permᴰ.nil)
      clock ours freed
