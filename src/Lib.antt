-- ===== src/Lib.antt =====
-- Cluster API provider for KWOK: controllers that let Cluster API manage simulated clusters, whose
-- nodes are objects without machines behind them.
--
-- The program's parts, and the file that models each; paths are from the root of the repository.
--
-- - `Api`: the custom resources of api/infrastructure/v1alpha1, api/controlplane/v1alpha1,
--   api/bootstrap/v1alpha1 and api/shared/v1alpha1, and the objects of Kubernetes and of Cluster API
--   with the fields that the code reads or writes. A pointer that may be nil is an `Option`.
-- - `Manager`: main.go and pkg/consts/consts.go, with what `SetupWithManager` of each controller
--   registers as data in `Manager/Registration`. `Setup` has what is asked of controller-runtime and of
--   the operating system, `Main` is `main` with `setupProbes` and `setupReconcilers`, `Follows` says what
--   it is to carry out a plan, and `Plan` has the plan.
-- - `WorkloadClient`: internal/controller/infrastructure/workload_client.go. `get_client` is
--   `GetClient`, `remove_client` is `RemoveClient`; the map of clients is an association list.
--   `WorkloadClient/Threads` has any number of goroutines that call them, as a step relation with the
--   mutex in its state: a step of one of them is to lock, a critical section with its unlock, a call
--   of the API server or a client that is made.
-- - `Machine`: internal/controller/infrastructure/kwokmachine_controller.go. `Reconcile` has the
--   guards and the deferred patch; `Provision` is `reconcileNormal`, `Heartbeat` is `renewHeartbeat`,
--   `Lease` is `ensureNodeLease`, `Delete` is `reconcileDelete`, `Node` the objects that are sent.
-- - `MachinePool`: internal/controller/infrastructure/kwokmachinepool_controller.go. `Child` has the
--   child objects, `Scale` the two loops, `Status` and `Normal` the rest of `reconcileNormal`,
--   `Delete` is `reconcileDelete`, `Reconcile` the guards. `Converge` states what is expected of an API
--   server that answers (`IsConsistent`) and of one that may fail (`Converge/Faults`), and what the
--   normal call makes of the children there, once or called again and again (`Converge/Retries`).
-- - `KwokClusters`: internal/controller/infrastructure/kwokcluster_controller.go, with the mapping
--   from control planes in `KwokClusters/Mapping`.
-- - `ControlPlaneScope`: pkg/scope/controlplane.go; `Runtimes`: what pkg/services/kwok/cluster/runtime.go
--   puts behind an interface.
-- - `Service`: pkg/services/kwok/cluster/create.go and delete.go. `Reconcile` is `Service.Reconcile`
--   with `checkKindReady`, `Secrets` has the two ways to publish a kubeconfig, `Kubeconfig` the
--   rewriting of servers, `Delete` is `Service.Delete`, and `Host` is what they call on the host.
-- - `ControlPlanes`: internal/controller/controlplane/kwokcontrolplane_controller.go, with the mapping
--   from KwokClusters in `ControlPlanes/Mapping`. It runs the service, whose scope has the control
--   plane that the reconciler holds.
-- - `KwokConfigs`: internal/controller/bootstrap/kwokconfig_controller.go, with the mappings from
--   Machines and MachinePools in `KwokConfigs/Mapping`. `Version`: version/version.go.
--
-- A controller is a function on a state (`Exec`): it takes the world outside, the trace of the writes
-- that were sent, and the clients that the factory has cached (`Kube/Session`), and it gives an
-- outcome, which is a value, an error or a panic, and the state after it. A part of a controller that
-- changes the object in memory has the object in its state too.
-- The machine controller calls the factory; the pool creates the objects that the machine controller
-- reconciles, and reads the provider IDs that it persists; the control plane's controller runs the
-- service, which sets the endpoint that the controller of the KwokCluster then publishes.
-- `Exec` also has the two ways in which the source defers a patch, `Kube/Writes` the requests of the
-- trace, `Kube/Failures` the errors, and `Prelude` the lists, maps, numbers and texts.
--
-- What is not in the repository is a parameter: `Kube/Clients` has the clients of
-- controller-runtime, the helpers of Cluster API, clientcmd and the clock as functions over an
-- arbitrary type of worlds, which may answer anything; a theorem that needs more of them states it
-- as a hypothesis. `Tests/Fake` has an API server in memory at which the hypotheses are shown to hold.
--
-- Bounds and fuel: `ensureNodeLease` calls itself where another process was faster. The model counts
-- the starts by fuel, and two are enough for an API server that does not lose a lease whose creation
-- it has just refused. All other loops run over a list or a count. Counts of children are natural
-- numbers, since a list has less than 2^31 items, and the desired replicas an integer; their difference
-- wraps around as an `int32` does. The port of a URL is taken as a number below 2^31.
--
-- Not modelled: log lines and events; the parsing of the command line; the generated deep copies and
-- the registration of the types with a scheme, which only call libraries. The controllers call
-- `GetClient` in one step; `WorkloadClient/Threads` takes it apart. The syntax of URLs (net/url) and of
-- paths, HTTP and the files of a host are parameters like the libraries.
mod Prelude
pub mod Exec
pub mod Api
pub mod Kube
pub mod Runtimes
pub mod WorkloadClient
pub mod Machine
pub mod MachinePool
pub mod KwokClusters
pub mod ControlPlaneScope
pub mod Service
pub mod ControlPlanes
pub mod KwokConfigs
pub mod Version
pub mod Manager
pub mod Tests
