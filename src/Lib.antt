-- ===== src/Lib.antt =====
-- The kubeturbo operator: a Kubernetes controller, written in Go, that keeps the objects of a kubeturbo
-- installation (config map, service account, cluster role, role binding, deployment) as a custom
-- resource asks for them.
--
-- The parts and the files that model them:
--   api/v1/kubeturbo_types.go                  Types, with Blocks and Args (the fields), Reflect and Verify
--                                              (VerifySubfields), Defaults (SetSpecDefault)
--   internal/utils, internal/constants         Utils, Constants
--   internal/request/request.go,
--   internal/api/kubeturbo/request.go          Request (names and labels), Client (the calls of the API
--                                              server), Calls (DeleteIfExists, RestartDeployment),
--                                              Request.Patch (Patch)
--   internal/api/kubeturbo/reconciler.go       Config (the two configurations and their hash), Json (their
--                                              printing), ContainerArgs (containerArgs), Roles
--                                              (mutateClusterRole), Workload (the other mutate functions),
--                                              Reconciler (Reconcile), Teardown (Teardown)
--   internal/controller/kubeturbo_controller.go  Finalizers (the loop over the finalizers), Controller
--   internal/reconcile/reconcile.go            ReconcileResult
--   internal/runnable/CRDCheck.go              CrdCheck
--   api/v1/zz_generated.deepcopy.go            DeepCopy: Layout (the structs as they lie in memory), Zero and
--                                              Cells, Settings, Connection, Pods and Args (the blocks'
--                                              copies), Views (what a struct shows), over Heap
--   api/v1alpha1                               V1alpha1
--   cmd/main.go                                Startup (the channels and the goroutine), Startup.Main
--                                              (options and calls, and the controller's SetupWithManager)
-- Prelude has the shared helpers, Outcome errors and panics as values, Objects the Kubernetes objects,
-- Cycle the state of one cycle; Tests runs the operator on a cluster in memory.
--
-- A function has the name of its Go function in snake case. Code that reads and writes is state passing
-- (Exec): its state comes back beside an error, since what was done stays done. A Go panic is an
-- outcome. A pointer is an Option, and a map an association list whose order is any order.
--
-- controller-runtime is not part of the repository. Client is its calls over an unknown state of the
-- cluster, and Client.IsLawful what its documentation promises of them; Tests.Memory is an
-- implementation that keeps these laws. controllerutil's functions on finalizers are parameters without
-- any law, and may write to the array that the loop ranges over. encoding/json, hash/fnv and strings
-- are of Go's standard library and modelled as documented.
--
-- Heap is Go's memory for the code that copies structs with pointers: a store of cells, in which pointers,
-- slices and maps are addresses. Elsewhere a pointer that nobody writes through is the value it shows.
--
-- Every loop of the operator is over a list, so that no fuel is needed. The one poll, for the deletion
-- of pods, is a call of the client. Reconciler.Retry runs cycle after cycle on fuel, and Controller.Again
-- request after request: Client.Responsive says what an API server does that refuses nothing, and three
-- of them are enough over it.
--
-- Not modelled: log output and the logger's options, what scheme registration does, the references inside
-- values of k8s.io's types, and the fields of Kubernetes objects that the operator leaves unset.
pub mod Prelude
pub mod Outcome
pub mod Utils
pub mod Constants
pub mod Types
pub mod Request
pub mod Objects
pub mod Client
pub mod Calls
pub mod Json
pub mod Config
pub mod ContainerArgs
pub mod Roles
pub mod Workload
pub mod Heap
pub mod DeepCopy
pub mod V1alpha1
pub mod Cycle
pub mod Reconciler
pub mod Teardown
pub mod ReconcileResult
pub mod Finalizers
pub mod Controller
pub mod CrdCheck
pub mod Startup
pub mod Tests
