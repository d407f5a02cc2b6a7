-- ===== src/Lib.antt =====
-- The EvictionRequest controller: a Kubernetes controller that, for each EvictionRequest, hands a
-- pod from interceptor to interceptor and in the end evicts it.
--
-- The parts and how they interact. The informer calls the event handlers of pkg/controller, which
-- give the object to the worker pool of pkg/worker; a worker calls ReconcileEvictionRequest of
-- pkg/reconciler, which looks the pod up, defaults the cancellation policy, and calls Handle of
-- pkg/reconciler/interceptor, or Perform of pkg/reconciler/eviction when no interceptors are
-- listed. Both report through pkg/reconciler/status or by a status update of their own. The
-- handlers share one object through a pointer and write to it.
--
-- Files and code:
-- - Prelude, Prelude/Tests, Prelude/Lists, Prelude/Int: names of the libraries, Boolean tests,
--   lists over the native numbers, int32 and int64.
-- - Api, Api/Constants: apis/evictionrequest/v1alpha1/types.go, pkg/constants/constants.go. A
--   pointer field is an Option, an int32 an integer.
-- - Cluster: what the handlers call and do not implement (lister, client, eviction subresource,
--   clock, apierrors.IsNotFound, sort.Slice) as a record Env over a world of any type, and the
--   state that a handler works on: the world, the shared object, the log of the calls. Each call
--   may change the world, so that other clients may act between any two calls. A handler ends by a
--   return or by a panic.
-- - Status: pkg/reconciler/status/status.go. upsert_condition is UpsertCondition (upsert is its
--   loop and append), increment_failed_eviction_counter is IncrementFailedEvictionCounter.
-- - Eviction: pkg/reconciler/eviction/eviction.go. perform is Perform; evict_pod is its part after
--   the look-up.
-- - Interceptor: pkg/reconciler/interceptor/interceptor.go, a function for each method.
--   updateEvictionRequestStatus is update_status of Cluster.
-- - Reconciler: pkg/reconciler/reconciler.go. reconcile_eviction_request is
--   ReconcileEvictionRequest, with reconcile_pod, ensure_policy and proceed its later parts.
-- - Worker: pkg/worker/worker.go. The queue of client-go is the record Workqueue; the items are
--   pointers into a heap of objects. process_item is the function literal of processNextWorkItem,
--   settle what follows syncHandler. run_worker is the loop of runWorker on fuel, shut_down the
--   deferred call of Start.
-- - Controller: pkg/controller/controller.go. The stop channel is nil, open or closed; what the
--   informer factories report is an argument of start_informers, and whether the informer takes the
--   handlers one of setup_event_handlers. Controller/Lifecycle interleaves the parts of
--   onStartedLeading with onStoppedLeading. The event handlers work on the pool of Worker through
--   enqueue.
-- - Config: pkg/config/clients.go. The constructors of the clients are arguments.
-- - Factory: pkg/generated/informers/externalversions/factory.go. The operations run one at a time,
--   as under its lock; a goroutine that runs an informer is an entry of runs.
-- - Informers, Informers/Leading: the typed and generic informers of
--   pkg/generated/informers/externalversions, the providers of cmd/main.go, the listers of
--   pkg/generated/listers, and onStartedLeading of the controller on the two factories themselves.
-- - Controller/Election: Start and registerLifecycleHooks of pkg/controller/controller.go.
-- - Clientset: pkg/generated/clientset/versioned/clientset.go and evictionrequest_client.go of its
--   typed clients, with newEvictionRequests.
-- - Store, DeepCopy: the structs of types.go as cells of a heap, and zz_generated.deepcopy.go on
--   it. request_deep_copy is (*EvictionRequest).DeepCopy, and so on; Worker.enqueue, which works on
--   values, writes the copy at a fresh address.
-- - Worker/Concurrent: Start of pkg/worker/worker.go, whose goroutines, event handlers and
--   cancellation are the steps of a relation. A worker's Get and its work on the item are two
--   steps; the work is one, with the deferred Done.
-- - Cluster/Runs, Cluster/Frame, Reconciler/Frame: two runs of a handler from related states, from
--   what each single write and call does, and what every handler keeps. Reconciler/Calls,
--   Reconciler/Requesters: a reconciliation after other calls, and of a request that others asked
--   for.
-- - Wiring: the constructors New of all packages, and the functions of cmd/main.go that make
--   client-go's informer factory and its pod lister.
-- - Fakes, Fakes/Typed: pkg/generated/clientset/versioned/fake/clientset_generated.go, and the
--   typed fakes. A tracker is a reference, and what it refers to is passed along.
-- - Scheme: groupversion_info.go of apis/evictionrequest/v1alpha1, and register.go of
--   pkg/generated/clientset/versioned/scheme and of its fake.
-- - Reconciler/Server, Reconciler/Turns, Reconciler/Overdue, Reconciler/Beginning: turns of the
--   control loop. In a turn the informer gives the object that the API server keeps, and a worker
--   reconciles a copy of it; Controller/Loop is such a turn through the event handler, the queue
--   and the pool, and Controller/Rounds one such turn after the other.
-- - Worker/Evictions, Worker/Cache, Worker/Origins, Controller/Reaction: the event handlers, the
--   pool and the reconciler composed.
-- - The children of these modules hold the proofs; Tests holds a small cluster and queue, runs, and
--   the theorems at concrete values.
--
-- Conventions. Logging is left out, but a log line that reads through a pointer keeps that read. A
-- map that is ranged over is the list of its entries. Times are nanoseconds as natural numbers;
-- time.Duration is an int64 that wraps, and time.Since saturates. The fuel of run_worker counts its
-- turns: a turn takes one item, so a queue that takes no new items needs one turn more than it has
-- items.
--
-- Hypotheses on code outside the repository: SortsSlices (sort.Slice rearranges, and orders by a
-- strict weak order), HasVersions (a write makes the version it was sent stale; a stale one is
-- refused, and stays stale), GivesAdded (a queue gives only what was added), FindsByName (a lister
-- gives the pod of the name and namespace it was asked for) and DrainsOnShutDown (a queue that is
-- shut down takes no new items and hands out those that are left), IgnoresSpec (an update of the
-- status does not read the spec), RegistersTypes (a scheme builder adds the types that were
-- registered with it), HandsOut (an idle queue hands out the item that is added next, and the key
-- function does not fail on an object), Serves (an API server that does not fail takes a status
-- update of the current version, and nobody else writes; the lister gives the pod until it is
-- evicted). Tests/Memory, Tests/Serving, Tests/Queue and Tests/Schemes show them to hold of two
-- clusters, one queue and one kind of scheme.
--
-- Not modelled: the election loop, the lifecycle of fx, the values that fx passes to the
-- constructors that cmd/main.go and pkg/reconciler/module.go name, and the delivery of informer
-- events, which are outside the repository; and the calls of the typed client, of its fake and of
-- the listers, which are client-go's generic ones.
pub mod Prelude
pub mod Api
pub mod Cluster
pub mod Status
pub mod Eviction
pub mod Interceptor
pub mod Reconciler
pub mod Worker
pub mod Controller
pub mod Config
pub mod Factory
pub mod Informers
pub mod Wiring
pub mod Fakes
pub mod Clientset
pub mod Scheme
pub mod Store
pub mod DeepCopy
mod Tests
