-- ===== src/TestPrograms/App.antt =====
-- cmd/testapp/main.go: an application whose readiness a ConfigMap decides.
pub mod Readiness
use x_pdb.Prelude.{
  ℕ, String, Bool, true, false, Option, none, some, List, [], ◌∷◌, ◌==◌, if◌then◌else◌, Error,
  Result, ok, err, fault,
}
use x_pdb.Api.{Labels}
use x_pdb.TestPrograms.{data_at, or_empty}

-- What the loop of main receives: an object of the watch, which is `none` where it is not a ConfigMap,
-- or the signal to shut down.
pub data Event : Type 0 where
  object : Option Labels → Event
  interrupt : Event

-- The variable reportPodReady, and whether the watch, the server and the context were closed.
pub record Running : Type 0 where
  pub report_pod_ready : Bool
  pub closed : Bool

-- `parse_bool` is strconv.ParseBool, and `hostname` the name of the pod.
module _ (parse_bool : String → Bool × Option Error) (hostname : String) where
  own_value : Option String → Bool × Option Error
  own_value none = (false, none)
  own_value (some val) = parse_bool val

  unfoldable pub is_pod_ready : Option Labels → Bool × Option Error
  unfolding own_value
  is_pod_ready none = (false, none)
  is_pod_ready (some entries) =
      if or_empty (data_at "always" entries) == "true"
      then (true, none)
      else own_value (data_at hostname entries)

  -- One turn of the loop of main. An error of isPodReady is logged only. The loop goes on after the
  -- signal.
  pub step : Running → Event → Running
  unfolding is_pod_ready
  step s (object cm) = record s { report_pod_ready = (is_pod_ready cm).0 }
  step s interrupt = record s { closed = true }

  unfoldable pub run : List Event → Running → Running
  unfolding step
  run [] s = s
  run (e ∷ es) s = run es (step s e)

-- How main goes on: the program has exited with a code, or its loop has come so far.
pub data Outcome : Type 0 where
  exited : ℕ → Outcome
  running : Running → Outcome

abbrev pub starting : Running
starting = record { report_pod_ready = false; closed = false }

module _ (parse_bool : String → Bool × Option Error) (hostname : String) where
  -- From the watch on.
  pub watched : List Event → Result (Unit {0}) → Outcome
  watched events (ok u) = running (run parse_bool hostname events starting)
  watched events (err e) = exited 1
  watched events fault = exited 2

  -- From the client on; a panic ends a Go program with the code 2.
  pub connected : String → Result (Unit {0}) → List Event → Result (Unit {0}) → Outcome
  unfolding watched
  connected my_namespace watcher events (ok u) =
      if my_namespace == "" then exited 1 else watched events watcher
  connected my_namespace watcher events (err e) = exited 1
  connected my_namespace watcher events fault = exited 2

  -- main, with what GetConfigOrDie and NewWithWatch, the environment and Watch answer, and the events
  -- that the loop has received. The loop is never left.
  unfoldable pub main : Result (Unit {0}) → String → Result (Unit {0}) → List Event → Outcome
  unfolding connected
  main client my_namespace watcher events = connected my_namespace watcher events client

-- The status that the HTTP handler writes.
unfoldable pub status : Running → ℕ
status s = if s.report_pod_ready then 200 else 500
