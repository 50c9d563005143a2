-- ===== src/Lib.antt =====
-- x-pdb: a verification library for the disruption budgets of pods over several Kubernetes clusters.
--
-- The program. An admission webhook (internal/webhooks/validation.go) is asked by the API server of a
-- cluster before a pod is deleted or evicted. It lets go the pods that are not its business; it asks
-- the pre-activities service (internal/preactivities/service.go) whether work on the pod is pending,
-- and the budget service (internal/pdb) which budgets cover the pod. For a pod with one budget it
-- takes a lock on the pods of the budget's selector in all clusters (internal/lock), asks the budget
-- service for the verdict and, where the budget has one, a probe (internal/disruptionprobe). An
-- admitted request leaves the lock to run out after five seconds; a refused one gives it back. The
-- lock and the counts of the other clusters are reached through clients (internal/state/client) of
-- their state servers (internal/state/server/server.go), which take the lock and count the pods there.
--
-- The files, by the code they are about. The names are the source's, in lower case with underscores.
--   Api            api/v1alpha1 and the fields of Kubernetes objects that are read
--   DeepCopy       api/v1alpha1/zz_generated.deepcopy.go, over a heap with pointers; DeepCopy.Shapes and
--                  DeepCopy.Independent
--   Proto          the messages of pkg/proto
--   Converters     internal/converters/converters.go; Converters.RoundTrip
--   Pods           internal/pdb/pod_utils.go and countHealthyPods; Pods.Readiness,
--                  Pods.Healthy
--   Preactivities  internal/preactivities/service.go; Preactivities.Verdict
--   Lease          internal/lock/leases.go; Lease.Names, Lease.Keys
--   LeaseApi       the API server's leases: an interface, its laws, and LeaseApi.Memory, a server in
--                  memory that meets them
--   Lock.Local     LocalLock and LocalUnlock of internal/lock/service.go, each in one go; Verdict,
--                  Safety, Progress, Filled and Unlock below it
--   Lock.Local.Race  the same two functions call by call, with many requests at once: Alone for one
--                  request, System for the steps, Facts, Writes, Calls and Exclusion, and Onward
--   Evictions      the lock and the budget service together, with the pods of several clusters; Totals,
--                  Invariant, Disrupting, Budget and Granted below it
--   Lock           Lock, Unlock, remoteLock and remoteUnlock of the same file; Lock.Confirm and
--                  Lock.Tasks for the answers of the other clusters, Lock.Everywhere
--   Remote         the goroutines and the pool of results that both services use; Remote.Pool
--   Pdb            internal/pdb/service.go; Pdb.Budget, Pdb.FailClosed, Pdb.Granted, and
--                  Pdb.Disruptions for one disruption after another
--   Workloads      what internal/pdb/scale.go reads
--   Scale          internal/pdb/scale.go; Scale.Finders, Scale.Total, Scale.Sums
--   StateServer    the handlers of internal/state/server/server.go; StateServer.Handlers, and
--                  StateServer.Network for all clusters together, with Locking, Unlocking and
--                  Counting below it
--   Serving        Start of the same file and of cmd/testdisruptionprobe/main.go; Serving.Verdict
--   ClientPool     internal/state/client/client.go and internal/disruptionprobe/client_pool.go;
--                  ClientPool.Cache
--   Probe          internal/disruptionprobe/service.go; Probe.Verdict
--   Metrics        internal/metrics/metrics.go
--   Webhook        internal/webhooks/validation.go; Webhook.Handle is the handler, with
--                  Admitted, Answers, Verdict, Locking, Effects and DryRun below it;
--                  Webhook.Identity
--   Controller     main of cmd/controller/main.go: the services from the flags; Controller.Admission
--                  and Controller.Leftover for the webhook of a controller that has started;
--                  Controller.Main for the calls of main and its exit code, with SetUp below it
--   Endpoints      parseEndpoints of cmd/controller/main.go; Endpoints.Parse
--   TestPrograms   cmd/testdisruptionprobe/main.go and cmd/testapp/main.go, in DisruptionProbe and App
--   Prelude        shared names, results and errors, machine integers, families, and loops whose steps
--                  commute
--   Examples       concrete runs
--
-- How the code is read. A function that touches the cluster takes the state of the outside and returns
-- it; a failure is a value of Result, where `fault` is a panic, such as a nil pointer. An int32 is an
-- integer that is wrapped after each operation. A lease keeps its time in microseconds. Each call of
-- the API server, and each goroutine, is one step; the order of the goroutines is a parameter. Every
-- loop is over a list, so that there is no fuel. Clocks, UUIDs, hashes and Kubernetes' own functions
-- are parameters, with the laws that the code relies on as hypotheses where a theorem needs them. A call
-- of the API server that fails may have been carried out all the same, as one that timed out.
--
-- In Lock.Local.Race each call of the API server and each reading of the clock is a step, and the steps
-- of the requests, the passing of time and changes to other leases come in any order. The clocks of the
-- requests differ: a reading may be behind the time by anything, and ahead of it by a bound. Evictions
-- puts counts and disruptions between these steps. It is about one API server that all requests lock,
-- and about one selector. A controller that has started takes what its readers show, the time and the
-- order of its goroutines from the state in which a call begins.
--
-- What is not modelled: what the Kubernetes manager does with the servers and checks that it is given,
-- logging, the generated encoding of messages, TLS, the end-to-end tests, which run on real
-- clusters, and a call of the API server that is carried out only after it has been answered.

mod Prelude
pub mod Api
pub mod Proto
pub mod Pods
pub mod Converters
pub mod Preactivities
pub mod Lease
pub mod LeaseApi
pub mod Lock
pub mod Workloads
pub mod Scale
pub mod Remote
pub mod Pdb
pub mod StateServer
pub mod ClientPool
pub mod Probe
pub mod Metrics
pub mod Webhook
pub mod Controller
pub mod DeepCopy
pub mod Serving
pub mod Endpoints
pub mod Evictions
pub mod TestPrograms
pub mod Examples
