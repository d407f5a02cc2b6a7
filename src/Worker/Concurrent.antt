-- ===== src/Worker/Concurrent.antt =====
-- `Start` of pkg/worker/worker.go: the worker loops as goroutines, interleaved with each other,
-- with the event handlers and with the end of the context. A worker's pass is two steps, so that
-- others may act between its Get and its work on the item; the work, with the deferred Done at its
-- end, is one step.
use k8s_eviction_controller.Prelude.{
  ℕ, ◌<◌, ltb, leb, ◌≡◌, true, Option, none, some, if◌then◌else◌, ◌&&◌,
}
use k8s_eviction_controller.Cluster.{Err, M}
use k8s_eviction_controller.Worker.{
  Obj, request_at, other, Workqueue, Pool, passed, worker_count, enqueue, process_item, shut_down,
}

pub data Activity : Type 0 where
  -- at the head of the loop of `runWorker`
  idle : Activity
  -- the item that Get gave
  busy : Obj → Activity
  -- the loop has ended
  stopped : Activity

abbrev pub update : (ℕ → Activity) → ℕ → Activity → ℕ → Activity
update f i a j = if leb i j && leb j i then a else f j

-- A pointer to an object that was made: the addresses below `next` are in use.
abbrev pub IsThere : Obj → ℕ → Type 0
IsThere (request_at a) next = a < next
IsThere (other value) next = Unit {0}

module _ (w : Workqueue) {W : Type 0} (reconcile : M W (Option Err)) where
  pub record System : Type 0 where
    pub pool : Pool w.Queue W
    pub worker : ℕ → Activity

  -- After the loop of `Start`: `worker_count` goroutines, none of which has taken an item.
  abbrev pub start_workers : Pool w.Queue W → System
  start_workers p = record { pool = p; worker = λ i. if ltb i worker_count then idle else stopped }

  -- A pass that panics has no successor: the process ends.
  pub data Step (s : System) : System → Type 0 where
    take :
        (i : ℕ) (obj : Obj)
        → s.worker i ≡ idle
        → (w.get s.pool.workqueue).0 ≡ some obj
        → Step s (record {
          pool = record s.pool { workqueue = (w.get s.pool.workqueue).1 };
          worker = update s.worker i (busy obj);
        })
    finish :
        (i : ℕ) (obj : Obj) (p : Pool w.Queue W)
        → s.worker i ≡ busy obj
        → process_item w reconcile obj s.pool ≡ passed true p
        → Step s (record { pool = p; worker = update s.worker i idle })
    stop :
        (i : ℕ)
        → s.worker i ≡ idle
        → (w.get s.pool.workqueue).0 ≡ none
        → Step s (record {
          pool = record s.pool { workqueue = (w.get s.pool.workqueue).1 };
          worker = update s.worker i stopped;
        })
    -- an event handler, which is given an object that is there
    deliver :
        (obj : Obj)
        → IsThere obj s.pool.next
        → Step s (record s { pool = enqueue w reconcile obj s.pool })
    -- the context is done
    cancel : Step s (record s { pool = shut_down w reconcile s.pool })

  pub data Reach (p : Pool w.Queue W) : System → Type 0 where
    start : Reach p (start_workers p)
    later : {s t : System} → Reach p s → Step s t → Reach p t
