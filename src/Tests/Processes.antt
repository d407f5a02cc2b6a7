-- ===== src/Tests/Processes.antt =====
-- The theorems on workers, callbacks and clients at concrete
-- values.
use k8s_eviction_controller.Prelude.{
  List, ℕ, zero, suc, if◌then◌else◌, ◌+◌, ◌≡◌, ◌≢◌, ◌↔◌, ◌⊎◌, refl, String, ◌==◌, true, false,
  Option, some, [], ◌∷◌, arith,
}
use k8s_eviction_controller.Api.{EvictionRequest}
use k8s_eviction_controller.Cluster.{Err, message, M}
use k8s_eviction_controller.Reconciler.{reconcile_eviction_request}
use k8s_eviction_controller.Worker.{new_pool, request_at, key, Pool, added, enqueue}
use k8s_eviction_controller.Worker.Protocol.{
  Crashes, Retries, Succeeds, Rejects, process_item_protocol,
}
use k8s_eviction_controller.Worker.Concurrent.{
  busy, update, System, start_workers, take, Reach, start, later,
}
use k8s_eviction_controller.Worker.Duplicates.{enqueue_twice}
use k8s_eviction_controller.Controller.{
  handle_eviction_request_update, Controller, SyncMaps, new_controller,
}
use k8s_eviction_controller.Controller.Delivery.{Unfit, Queues, Ignores, update_delivers}
use k8s_eviction_controller.Controller.Lifecycle.{
  Event, handlers_added, informers_started, worker_started, stopped, run, is_open, run_total,
}
use k8s_eviction_controller.Config.{Made, made, not_made, Clients, new_clients, new_clients_iff}
use k8s_eviction_controller.Tests.Memory.{World, memory}
use k8s_eviction_controller.Tests.Queue.{Fifo, fifo}
use k8s_eviction_controller.Tests.Requests.{cluster, direct, no_reference}

-- Address 0 holds a request with no pod reference, and every other one the request with one.
abbrev pub heap : ℕ → EvictionRequest
heap zero = no_reference.request
heap (suc n) = direct.request

abbrev pub reconcile : M World (Option Err)
reconcile = reconcile_eviction_request memory

abbrev pub pool : Pool Fifo World
pool = new_pool fifo reconcile heap 2 cluster

-- Both requests are queued.
abbrev pub loaded : Pool Fifo World
loaded = record pool {
  workqueue = record { items = request_at 1 ∷ request_at 0 ∷ []; held = []; shut = false };
}

-- Worker 0 has taken the first item and worker 1 the second.
abbrev pub both_busy : System fifo reconcile
both_busy = record {
  pool = record loaded {
    workqueue = record { items = []; held = request_at 0 ∷ request_at 1 ∷ []; shut = false };
  };
  worker =
      update (update (start_workers fifo reconcile loaded).worker 0 (busy (request_at 1))) 1
        (busy (request_at 0));
}

pub both_busy-Reach : Reach fifo reconcile loaded both_busy
both_busy-Reach =
    later (later start (take 0 (request_at 1) refl refl)) (take 1 (request_at 0) refl refl)

-- Two copies of one request that was enqueued twice are processed at the same time.
abbrev updated : Pool Fifo World
updated = enqueue fifo reconcile (request_at 1) (enqueue fifo reconcile (request_at 1) pool)

abbrev copies_busy : System fifo reconcile
copies_busy = record {
  pool = record updated {
    workqueue = record { items = []; held = request_at 3 ∷ request_at 2 ∷ []; shut = false };
  };
  worker =
      update (update (start_workers fifo reconcile updated).worker 0 (busy (request_at 2))) 1
        (busy (request_at 3));
}

copies_busy-Reach : Reach fifo reconcile updated copies_busy
unfolding enqueue
copies_busy-Reach =
    later (later start (take 0 (request_at 2) refl refl)) (take 1 (request_at 3) refl refl)

process_item_protocol_example :
    Crashes fifo reconcile (request_at 1) pool
    ⊎ Retries fifo reconcile (request_at 1) pool
    ⊎ Succeeds fifo reconcile (request_at 1) pool
    ⊎ Rejects fifo reconcile (request_at 1) pool
process_item_protocol_example = process_item_protocol fifo reconcile (request_at 1) pool

enqueue_twice_example :
    let q = enqueue fifo reconcile (request_at 1) (enqueue fifo reconcile (request_at 1) pool) in
    (q.queue_calls ≡ added (request_at 3) ∷ added (request_at 2) ∷ [])
    × (request_at 2 ≢ request_at 3)
    × (q.heap 2 ≡ direct.request)
    × (q.heap 3 ≡ direct.request)
enqueue_twice_example = enqueue_twice fifo reconcile 1 "drain-web" pool (omega arith) refl

update_delivers_example :
    let q = handle_eviction_request_update fifo reconcile (request_at 0) (request_at 1) pool in
    ((a : ℕ) × (b : ℕ) × (k : String) × (request_at 0 ≡ request_at a)
      × (request_at 1 ≡ request_at b)
      × (fifo.key_of (pool.heap b) ≡ key k)
      × Queues fifo reconcile b pool q)
    ⊎ (Unfit fifo reconcile (request_at 0) (request_at 1) pool q × Ignores fifo reconcile pool q)
update_delivers_example = update_delivers fifo reconcile (request_at 0) (request_at 1) pool

abbrev synced : SyncMaps
synced = record { kube = ("Pod", true) ∷ []; eviction_request = ("EvictionRequest", false) ∷ [] }

-- The lease is lost before the informers are started, and the channel that they then get stays open.
abbrev overtaken : List Event
overtaken = handlers_added true ∷ stopped ∷ informers_started synced ∷ worker_started ∷ []

run_total_example :
    (c' : Controller) × (run overtaken new_controller ≡ some c')
    × (is_open c'.stop_ch ≡ true)
    × (c'.workers ≡ 1 + new_controller.workers)
    × (c'.handlers ≡ 1 + new_controller.handlers)
run_total_example = run_total overtaken new_controller

abbrev load : String → Made String
load path =
    if path == "/root/.kube/config"
    then made "https://10.0.0.1"
    else not_made (message "no such file")

abbrev kubeconfig : String
kubeconfig = "/root/.kube/config"

abbrev connect : String → Made String
connect config = made config

abbrev clients : Clients load connect connect
clients = record {
  kube_client = "https://10.0.0.1";
  eviction_request_client = "https://10.0.0.1";
  config = "https://10.0.0.1";
}

new_clients_iff_example : (new_clients load connect connect kubeconfig ≡ made clients) ↔ (
    (kubeconfig ≢ "")
    × (load kubeconfig ≡ made clients.config)
    × (connect clients.config ≡ made clients.eviction_request_client)
    × (connect clients.config ≡ made clients.kube_client))
new_clients_iff_example = new_clients_iff load connect connect kubeconfig clients
