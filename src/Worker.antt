-- ===== src/Worker.antt =====
-- pkg/worker/worker.go: the worker pool on a rate-limited work queue. The queue, of client-go, and
-- the key function are an interface; the reconciler is the interface of pkg/reconciler. The items
-- of the queue are pointers: an object is an address in a heap, and a copy stands at a new one. The
-- texts of errors leave out what %T and %v print.
pub mod Protocol
pub mod Crash
pub mod Shutdown
pub mod Concurrent
pub mod Activities
pub mod Duplicates
pub mod Evictions
pub mod Items
pub mod Cache
pub mod Origins
pub mod Counting
pub mod Ending
use k8s_eviction_controller.Prelude.{
  ℕ, zero, suc, ◌<>◌, ◌≡◌, String, Bool, true, false, Option, none, some, List, [], ◌∷◌, ltb, leb,
  if◌then◌else◌, ◌&&◌,
}
use k8s_eviction_controller.Api.{EvictionRequest}
use k8s_eviction_controller.Cluster.{
  Err, message, wrapped, Call, State, Exit, returned, panicked, M,
}

abbrev pub worker_count : ℕ
worker_count = 10

-- An `interface{}`: a *EvictionRequest, or a value of another type.
pub data Obj : Type 0 where
  request_at : ℕ → Obj
  other : String → Obj

-- The answer of cache.MetaNamespaceKeyFunc.
pub data Key : Type 0 where
  key : String → Key
  bad_key : Err → Key

-- workqueue.RateLimitingInterface, and the key function. `get` gives no item when the queue is shut
-- down.
pub record Workqueue : Type 1 where
  pub Queue : Type 0
  pub new_queue : String → Queue
  pub get : Queue → Option Obj × Queue
  pub add : Queue → Obj → Queue
  pub done : Queue → Obj → Queue
  pub forget : Queue → Obj → Queue
  pub add_rate_limited : Queue → Obj → Queue
  pub shut_down : Queue → Queue
  pub key_of : EvictionRequest → Key

-- The calls to the queue.
pub data QueueCall : Type 0 where
  added done forgotten rate_limited : Obj → QueueCall

-- The pool and what it shares: `errors` are those given to runtime.HandleError, newest first, as
-- are the calls.
pub record Pool (Queue W : Type 0) : Type 0 where
  pub workqueue : Queue
  pub queue_calls : List QueueCall
  pub heap : ℕ → EvictionRequest
  pub next : ℕ
  pub world : W
  pub calls : List Call
  pub errors : List Err

-- The result of `processNextWorkItem`, or a panic that ends the process.
pub data Pass (Queue W : Type 0) : Type 0 where
  passed : Bool → Pool Queue W → Pass Queue W
  crashed : Pool Queue W → Pass Queue W

abbrev pub pool_of : {Queue W : Type 0} → Pass Queue W → Pool Queue W
pool_of (passed b p) = p
pool_of (crashed p) = p

-- How a worker's loop ends: by a shut-down queue, by a panic that ends the process, or not within
-- the fuel.
pub data Run (Queue W : Type 0) : Type 0 where
  ended went_down unfinished : Pool Queue W → Run Queue W

abbrev same : ℕ → ℕ → Bool
same a b = leb a b && leb b a

-- A write through a pointer.
abbrev pub write : (ℕ → EvictionRequest) → ℕ → EvictionRequest → ℕ → EvictionRequest
write heap a r b = if same a b then r else heap b

-- runtime.HandleError
abbrev handle_error : {Queue W : Type 0} → Err → Pool Queue W → Pool Queue W
handle_error e p = record p { errors = e ∷ p.errors }

module _ (w : Workqueue) {W : Type 0} (reconcile : M W (Option Err)) where
  abbrev call_done : Obj → Pool w.Queue W → Pool w.Queue W
  call_done obj p = record p {
    workqueue = w.done p.workqueue obj;
    queue_calls = done obj ∷ p.queue_calls;
  }

  abbrev call_forget : Obj → Pool w.Queue W → Pool w.Queue W
  call_forget obj p = record p {
    workqueue = w.forget p.workqueue obj;
    queue_calls = forgotten obj ∷ p.queue_calls;
  }

  abbrev call_add_rate_limited : Obj → Pool w.Queue W → Pool w.Queue W
  call_add_rate_limited obj p = record p {
    workqueue = w.add_rate_limited p.workqueue obj;
    queue_calls = rate_limited obj ∷ p.queue_calls;
  }

  -- `Enqueue`: a deep copy of the object is added, at an address of its own.
  unfoldable pub enqueue : Obj → Pool w.Queue W → Pool w.Queue W
  enqueue (other value) p = handle_error (message "expected *v1alpha1.EvictionRequest") p
  enqueue (request_at a) p = elim (w.key_of (p.heap a)) [
    | bad_key e ↦ handle_error (wrapped "error obtaining key for object" e) p
    | key k ↦ record p {
      heap = write p.heap p.next (p.heap a);
      next = suc p.next;
      workqueue = w.add p.workqueue (request_at p.next);
      queue_calls = added (request_at p.next) ∷ p.queue_calls;
    }
  ]

  -- `syncHandler`: the reconciler works on the object at the address.
  unfoldable pub sync_handler : ℕ → Pool w.Queue W → Exit W (Option Err)
  sync_handler a p = reconcile (record { world = p.world; request = p.heap a; calls = p.calls })

  -- The pool after the reconciler wrote to the object at `a`.
  abbrev written : ℕ → State W → Pool w.Queue W → Pool w.Queue W
  written a t p = record p { heap = write p.heap a t.request; world = t.world; calls = t.calls }

  -- What follows `syncHandler` for the item at `a`, with the deferred Done.
  unfoldable pub settle : ℕ → String → Pool w.Queue W → Exit W (Option Err) → Pass w.Queue W
  settle a k p (returned none t) =
      passed true (call_done (request_at a) (call_forget (request_at a) (written a t p)))
  settle a k p (returned (some e) t) = passed true (
      handle_error (wrapped ("error syncing '" <> k <> "', requeuing") e)
        (call_done (request_at a) (call_add_rate_limited (request_at a) (written a t p))))
  settle a k p (panicked t) = crashed (call_done (request_at a) (written a t p))

  -- The function literal of `processNextWorkItem`, with its deferred Done.
  unfoldable pub process_item : Obj → Pool w.Queue W → Pass w.Queue W
  process_item (other value) p = passed true (
      call_done (other value) (
        handle_error (message "expected *v1alpha1.EvictionRequest in workqueue")
          (call_forget (other value) p)))
  process_item (request_at a) p = elim (w.key_of (p.heap a)) [
    | bad_key e ↦ passed true (
        call_done (request_at a) (
          handle_error (wrapped "error obtaining key for eviction request" e)
            (call_forget (request_at a) p)))
    | key k ↦ settle a k p (sync_handler a p)
  ]

  unfoldable pub process_next_work_item : Pool w.Queue W → Pass w.Queue W
  process_next_work_item p =
      let (item, q) = w.get p.workqueue in
      elim item [
        | none ↦ passed false (record p { workqueue = q })
        | some obj ↦ process_item obj (record p { workqueue = q })
      ]

  -- The loop of `runWorker`.
  unfoldable pub run_worker : ℕ → Pool w.Queue W → Run w.Queue W
  unfolding process_next_work_item
  run_worker zero p = unfinished p
  run_worker (suc n) p = elim (process_next_work_item p) [
    | passed true t ↦ run_worker n t
    | passed false t ↦ ended t
    | crashed t ↦ went_down t
  ]

  -- The deferred ShutDown of `Start`, when the context is done.
  unfoldable pub shut_down : Pool w.Queue W → Pool w.Queue W
  shut_down p = record p { workqueue = w.shut_down p.workqueue }

  -- `New`, beside the objects and the world that are there.
  abbrev pub new_pool : (ℕ → EvictionRequest) → ℕ → W → Pool w.Queue W
  new_pool heap next world = record {
    workqueue = w.new_queue "eviction-requests";
    queue_calls = [];
    heap = heap;
    next = next;
    world = world;
    calls = [];
    errors = [];
  }

  abbrev pub get_workqueue : Pool w.Queue W → w.Queue
  get_workqueue p = p.workqueue
