-- ===== src/TestPrograms/DisruptionProbe.antt =====
-- cmd/testdisruptionprobe/main.go: the watcher of the configuration, and the server that answers from
-- it. The mutex makes each of its critical sections one step.
pub mod Verdict
pub mod Exit
use Prim.Native.String.{◌++◌ as ◌+++◌}
use x_pdb.Prelude.{
  ℕ, String, Bool, true, false, not, Option, none, some, List, [], ◌∷◌, ◌==◌, if◌then◌else◌, ◌≡◌,
  Error, msg, Result, ok, err, fault,
}
use x_pdb.Api.{Labels}
use x_pdb.Proto.{IsDisruptionAllowedRequest, IsDisruptionAllowedResponse}
use x_pdb.Endpoints.{Texts}
use x_pdb.TestPrograms.{data_at, or_empty}

-- What the watcher keeps: a map from the names of pods, read as false where a name is missing.
abbrev pub NotAllowed : Type 0
NotAllowed = List (String × Bool)

abbrev pub lookup : String → NotAllowed → Bool
lookup k [] = false
lookup k ((j, b) ∷ m) = if j == k then b else lookup k m

-- The loop over the items of the list.
pub marked : List String → NotAllowed → NotAllowed
marked [] m = m
marked (item ∷ items) m = marked items ((item, true) ∷ m)

-- What is received from the watch on ConfigMaps: one, or an object of another type.
pub data Received : Type 0 where
  config_map : Labels → Received
  other : Received

-- How the wait for a signal ends.
pub data Signalled : Type 0 where
  received_signal : String → Signalled
  done : Error → Signalled

module _ (texts : Texts) where
  unfoldable pub parse_config_map : Labels → NotAllowed
  unfolding marked
  parse_config_map entries =
      marked (texts.split (or_empty (data_at "notAllowedDisruptions" entries))) []

  -- The loop of configWatcher.Start: the objects received until the context is done.
  pub watch : List Received → NotAllowed → NotAllowed
  unfolding parse_config_map
  watch [] m = m
  watch (config_map entries ∷ events) m = watch events (parse_config_map entries)
  watch (other ∷ events) m = watch events m

  pub configured : List Received → NotAllowed → Result Labels → NotAllowed × Result (Unit {0})
  unfolding watch parse_config_map
  configured events m (ok entries) = (watch events (parse_config_map entries), ok tt)
  configured events m (err e) = (m, err e)
  configured events m fault = (m, fault)

  -- configWatcher.Start, with what Watch and Get of the client answer.
  unfoldable pub start :
      Result (Unit {0})
      → Result Labels
      → List Received
      → NotAllowed
      → NotAllowed × Result (Unit {0})
  unfolding configured
  start (ok u) config events m = configured events m config
  start (err e) config events m = (m, err e)
  start fault config events m = (m, fault)

unfoldable pub is_disruption_allowed : NotAllowed → String → String → Bool
is_disruption_allowed m namespace name = not (lookup (namespace +++ ("/" +++ name)) m)

-- disruptionProbeServer.IsDisruptionAllowed
unfoldable pub serve : NotAllowed → IsDisruptionAllowedRequest → IsDisruptionAllowedResponse
unfolding is_disruption_allowed
serve m req = record {
  is_allowed = is_disruption_allowed m req.pod_namespace req.pod_name;
  error = "";
}

-- handleTerminationSignal; `is_canceled` compares an error with context.Canceled.
unfoldable pub handle_termination_signal : (Error → Bool) → Signalled → Result (Unit {0})
handle_termination_signal is_canceled (received_signal sig) = err (msg ("received signal " +++ sig))
handle_termination_signal is_canceled (done e) = if is_canceled e then ok tt else err e

-- golang.org/x/sync/errgroup: Wait, with what the goroutines return, in the order in which they do.
pub record Group : Type 0 where
  pub wait : List (Result (Unit {0})) → Option Error

-- What errgroup documents: Wait gives the first error that is not nil.
pub record IsGroup (group : Group) : Type 0 where
  pub wait_none : group.wait [] ≡ none
  pub wait_ok : (r : List (Result (Unit {0}))) → group.wait (ok tt ∷ r) ≡ group.wait r
  pub wait_err : (e : Error) (r : List (Result (Unit {0}))) → group.wait (err e ∷ r) ≡ some e

module _ (group : Group) where
  abbrev pub exit_code : Option Error → ℕ
  exit_code none = 0
  exit_code (some e) = 1

  -- main, with what the client's constructor answers, and what the goroutines of configWatcher.Start,
  -- server.Start and handleTerminationSignal return.
  unfoldable pub main : Result (Unit {0}) → List (Result (Unit {0})) → ℕ
  main (ok u) tasks = exit_code (group.wait tasks)
  main (err e) tasks = 1
  main fault tasks = 2
