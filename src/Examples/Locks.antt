-- ===== src/Examples/Locks.antt =====
-- The lock on one cluster, run on a server in memory.
use x_pdb.Prelude.{
  ◌≡◌, refl, ◌≢◌, ◌↔◌, ◌⊎◌, Option, String, none, some, arith, length, msg, wrap, ok, err, fault,
  Option-cases, some_inj, inl, inr,
}
use x_pdb.Lease.{Lease, Key, create_lease_name_for_selector}
use x_pdb.Lease.Keys.{same_key}
use x_pdb.Lease.Names.{IsStandard, All, IsNameByte, create_lease_name_for_selector-IsName}
use x_pdb.LeaseApi.{LeaseApi, IsServer, Created}
use x_pdb.LeaseApi.Memory.{Memory, memory, held, memory-IsServer, memory-IsAvailable}
use x_pdb.Lock.Local.{local_lock, local_unlock}
use x_pdb.Lock.Local.Verdict.{Expired}
use x_pdb.Lock.Local.Safety.{lock_key, Obtained, local_lock-ok, Keeps, local_lock-Keeps}
use x_pdb.Lock.Local.Progress.{local_lock-ok_iff}
use x_pdb.Lock.Local.Filled.{IsFilled, Filled, local_lock-Filled}
use x_pdb.Lock.Local.Unlock.{local_unlock-ok_iff, local_unlock_unread, local_unlock-local_lock}
use x_pdb.Examples.{repeat, names, selector, clock, lease_of, full, empty}

local_lock-ok_iff_example :
    ((local_lock memory names "x-pdb" clock "us" "shop" selector (full (lease_of "them" 0))).1
      ≡ ok tt)
    ↔ ((held (full (lease_of "them" 0)) (lock_key names "x-pdb" "shop" selector) ≡ none)
        ⊎ ((l : Lease) × (held (full (lease_of "them" 0)) (lock_key names "x-pdb" "shop" selector)
              ≡ some l)
            × Expired 10_000_001 l))
local_lock-ok_iff_example =
    local_lock-ok_iff memory held memory-IsServer names "x-pdb" "us" "shop" selector
      memory-IsAvailable clock (full (lease_of "them" 0))

filled :
    (k : Key) (l : Lease) → held (full (lease_of "them" 9_000_000)) k ≡ some l → IsFilled l.spec
filled k l e = ground arith

local_lock-Filled_example :
    ((local_lock memory names "x-pdb" clock "us" "shop" selector
        (full (lease_of "them" 9_000_000))).1
      ≢ fault)
    × Filled held
        (local_lock memory names "x-pdb" clock "us" "shop" selector
          (full (lease_of "them" 9_000_000))).0
local_lock-Filled_example =
    local_lock-Filled memory held memory-IsServer names "x-pdb" "us" "shop" selector clock
      (full (lease_of "them" 9_000_000)) filled

-- The lock of somebody else is not given back.
local_unlock-ok_iff_example :
    ((local_unlock memory names "x-pdb" 0 "us" "shop" selector (full (lease_of "them" 0))).1
      ≡ ok tt)
    ↔ ((held (full (lease_of "them" 0)) (lock_key names "x-pdb" "shop" selector) ≡ none)
        ⊎ ((l : Lease) × (held (full (lease_of "them" 0)) (lock_key names "x-pdb" "shop" selector)
              ≡ some l)
            × (l.spec.holder_identity ≡ some "us")))
local_unlock-ok_iff_example =
    local_unlock-ok_iff memory held memory-IsServer names "x-pdb" "us" "shop" selector
      memory-IsAvailable 0 (full (lease_of "them" 0))

-- The lock that had run out is obtained.
obtained :
    (local_lock memory names "x-pdb" clock "us" "shop" selector (full (lease_of "them" 0))).1
    ≡ ok tt
unfolding local_lock memory
obtained = refl

local_lock-ok_example :
    (m : Lease) × (held
        (local_lock memory names "x-pdb" clock "us" "shop" selector (full (lease_of "them" 0))).0
        (lock_key names "x-pdb" "shop" selector)
      ≡ some m)
    × Obtained clock "us"
        (held (full (lease_of "them" 0)) (lock_key names "x-pdb" "shop" selector))
        m.spec
local_lock-ok_example =
    local_lock-ok memory held memory-IsServer names "x-pdb" "us" "shop" selector clock
      (full (lease_of "them" 0)) obtained

-- A server that carries a Create out and answers that it timed out.
abbrev slow : LeaseApi Memory
slow = record memory { create = λ s l. ((memory.create s l).0, some (msg "timeout")) }

slow_create :
    (s : Memory) (l : Lease)
    → (held (memory.create s l).0 l.key ≡ held s l.key) ⊎ Created held l s (memory.create s l).0
slow_create s l = elim (Option-cases (memory.create s l).1) [
  | inl e ↦ inr (memory-IsServer.create_done s l e)
  | inr (x, e) ↦ memory-IsServer.create_unsure s l x e
]

slow-IsServer : IsServer slow held
slow-IsServer = record {
  create_done = λ s l e. cc;
  create_exists = λ s l e p q. absurd (ground (arith, some_inj p));
  create_unsure = λ s l e p. slow_create s l;
  create_other = memory-IsServer.create_other;
  get_done = memory-IsServer.get_done;
  get_missing = memory-IsServer.get_missing;
  get_returns = memory-IsServer.get_returns;
  update_done = memory-IsServer.update_done;
  update_unsure = memory-IsServer.update_unsure;
  update_other = memory-IsServer.update_other;
  delete_done = memory-IsServer.delete_done;
  delete_unsure = memory-IsServer.delete_unsure;
  delete_other = memory-IsServer.delete_other;
}

abbrev holder : Option Lease → Option String
holder none = none
holder (some l) = l.spec.holder_identity

-- LocalLock fails there, and yet the lease names the caller.
timed_out :
    let r = local_lock slow names "x-pdb" clock "us" "shop" selector empty in
    (r.1 ≡ err (wrap "failed to acquire lease" (msg "timeout")))
    × (holder (held r.0 (lock_key names "x-pdb" "shop" selector)) ≡ some "us")
unfolding local_lock memory same_key create_lease_name_for_selector
timed_out = (refl, refl)

local_lock-Keeps_example :
    Keeps slow held slow-IsServer names "x-pdb" "us" "shop" selector clock empty
      (local_lock slow names "x-pdb" clock "us" "shop" selector empty).0
local_lock-Keeps_example =
    local_lock-Keeps slow held slow-IsServer names "x-pdb" "us" "shop" selector clock empty

-- The holder gives its lock back.
released :
    (local_unlock memory names "x-pdb" 10_000_000 "us" "shop" selector
      (full (lease_of "us" 9_000_000))).1
    ≡ ok tt
unfolding local_unlock memory
released = refl

found :
    memory.get (full (lease_of "them" 9_000_000)) (lock_key names "x-pdb" "shop" selector)
    ≡ ok (record (lease_of "them" 9_000_000) { key = lock_key names "x-pdb" "shop" selector })
unfolding memory
found = refl

-- A server that answers no Get.
abbrev mute : LeaseApi Memory
mute = record memory { get = λ s k. err (msg "timeout") }

mute-IsServer : IsServer mute held
mute-IsServer = record {
  create_done = memory-IsServer.create_done;
  create_exists = memory-IsServer.create_exists;
  create_unsure = memory-IsServer.create_unsure;
  create_other = memory-IsServer.create_other;
  get_done = λ s k l e. cc;
  get_missing = λ s k e p q. ground arith;
  get_returns = λ s k e. cc;
  update_done = memory-IsServer.update_done;
  update_unsure = memory-IsServer.update_unsure;
  update_other = memory-IsServer.update_other;
  delete_done = memory-IsServer.delete_done;
  delete_unsure = memory-IsServer.delete_unsure;
  delete_other = memory-IsServer.delete_other;
}

deletable :
    (mute.delete (full (lease_of "them" 9_000_000)) (lock_key names "x-pdb" "shop" selector)).1
    ≡ none
unfolding memory
deletable = refl

local_unlock_unread_example :
    ((local_unlock mute names "x-pdb" 10_000_000 "us" "shop" selector
        (full (lease_of "them" 9_000_000))).1
      ≡ ok tt)
    × (held
          (local_unlock mute names "x-pdb" 10_000_000 "us" "shop" selector
            (full (lease_of "them" 9_000_000))).0
          (lock_key names "x-pdb" "shop" selector)
        ≡ none)
local_unlock_unread_example =
    local_unlock_unread mute held mute-IsServer names "x-pdb" "us" "shop" selector 10_000_000
      (full (lease_of "them" 9_000_000)) (msg "timeout") refl refl deletable

local_unlock-local_lock_example :
    let s =
      (local_lock memory names "x-pdb" clock "us" "shop" selector (full (lease_of "them" 0))).0 in
    ((local_unlock memory names "x-pdb" 11_000_000 "us" "shop" selector s).1 ≡ ok tt)
    × (held
          (local_unlock memory names "x-pdb" 11_000_000 "us" "shop" selector s).0
          (lock_key names "x-pdb" "shop" selector)
        ≡ none)
local_unlock-local_lock_example =
    local_unlock-local_lock memory held memory-IsServer names "x-pdb" "us" "shop" selector
      memory-IsAvailable clock 11_000_000 (full (lease_of "them" 0)) obtained

names-IsStandard : IsStandard names
names-IsStandard = record {
  sum_length = λ bs. refl;
  encoding = λ bs h. (repeat 39 b'A', refl, refl, ground arith);
}

create_lease_name_for_selector-IsName_example :
    (length (create_lease_name_for_selector names "shop" selector) ≡ 44)
    × All IsNameByte (create_lease_name_for_selector names "shop" selector)
create_lease_name_for_selector-IsName_example =
    create_lease_name_for_selector-IsName names names-IsStandard "shop" selector
