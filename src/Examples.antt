-- ===== src/Examples.antt =====
-- The parameters at which the tests run the development: a server of leases in memory, two clusters,
-- and concrete pods, budgets and requests.
mod Locks
mod Gather
mod Network
mod Budgets
mod Requests
mod Objects
mod Scales
mod Races
mod Installed
mod Evictions
mod Copies
mod Programs
use x_pdb.Prelude.{
  ℕ, zero, suc, ◌%◌, ◌≡◌, refl, String, Bool, true, false, Option, none, some, List, [], ◌∷◌, ◌++◌,
  length, Error, msg, Result, ok, err,
}
use x_pdb.Api.{LabelSelector, Pod, PodStatus, PodCondition, Xpdb, XpdbSpec, IntOrString, int}
use x_pdb.Prelude.Int.{pos}
use x_pdb.Lease.{Naming, Lease, LeaseSpec}
use x_pdb.LeaseApi.Memory.{Memory}
use x_pdb.Lock.Local.{Clock}

abbrev pub repeat : ℕ → ℕ → List ℕ
repeat zero c = []
repeat (suc n) c = c ∷ repeat n c

abbrev pub names : Naming
names = record {
  sha256 = λ bs. repeat 32 (length bs % 256);
  base32 = λ bs. repeat 39 b'A' ++ b'=' ∷ [];
  selector_string = λ s. repeat (length s.match_labels) b's';
  utf8 = λ s. [];
}

abbrev pub selector : LabelSelector
selector = record { match_labels = ("app", "web") ∷ []; match_expressions = [] }

abbrev pub clock : Clock
clock = record { created = 10_000_000; checked = 10_000_001; taken = 10_000_002 }

-- No lease at all.
abbrev pub empty : Memory
empty = record { revision = 0; table = λ k. none }

-- A lease that somebody took at the given time.
abbrev pub lease_of : String → ℕ → Lease
lease_of holder at = record {
  key = record { namespace = "x-pdb"; name = [] };
  annotations = [];
  labels = [];
  resource_version = 1;
  spec = record {
    holder_identity = some holder;
    acquire_time = some at;
    lease_duration_seconds = some 5;
  };
}

-- Every selector is locked by the same lease.
abbrev pub full : Lease → Memory
full l = record { revision = 1; table = λ k. some l }

abbrev pub ready : PodCondition
ready = record { type = "Ready"; status = "True"; reason = ""; message = "" }

abbrev pub pod : Pod
pod = record {
  name = "web-0";
  namespace = "shop";
  labels = ("app", "web") ∷ [];
  annotations = some [];
  deletion_timestamp = none;
  owner_references = [];
  status = record { conditions = ready ∷ []; reason = "" };
}

abbrev pub spec : XpdbSpec
spec = record {
  suspend = none;
  min_available = none;
  selector = selector;
  max_unavailable = some (int (pos 1));
  probe = none;
}

abbrev pub xpdb : Xpdb
xpdb = record { name = "web"; namespace = "shop"; spec = spec }
