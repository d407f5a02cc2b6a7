-- ===== src/Tests/Reactions.antt =====
-- The worker pool, the event handlers and the reconciler together at one cluster and queue.
use k8s_eviction_controller.Prelude.{
  All, ◌≤◌, ◌*◌, ◌+◌, ◌⊎◌, arith, ℕ, ◌≡◌, ◌≢◌, refl, true, [], ◌∷◌,
}
use k8s_eviction_controller.Cluster.{evictions, updates}
use k8s_eviction_controller.Eviction.{eviction_of, perform, evict_pod}
use k8s_eviction_controller.Interceptor.Effects.{IsExhausted}
use k8s_eviction_controller.Reconciler.{
  reconcile_eviction_request, reconcile_pod, ensure_policy, proceed,
}
use k8s_eviction_controller.Status.{upsert_condition}
use k8s_eviction_controller.Reconciler.Safety.{MatchesPod}
use k8s_eviction_controller.Worker.{
  worker_count, shut_down, enqueue, request_at, Pool, passed, pool_of, added, done, forgotten,
  process_item, process_next_work_item, sync_handler, settle,
}
use k8s_eviction_controller.Worker.Concurrent.{
  busy, stopped, cancel, update, System, start_workers, Step, take, finish, deliver, Reach, start,
  later, idle,
}
use k8s_eviction_controller.Worker.Cache.{cache_untouched}
use k8s_eviction_controller.Worker.Origins.{IsFrom, IsAskedFor, calls_traceable}
use k8s_eviction_controller.Worker.Ending.{Run, halt, step, Moves, BringsDown, workers_end}
use k8s_eviction_controller.Worker.Evictions.{state_of, step_evicts_last}
use k8s_eviction_controller.Controller.{handle_eviction_request_add}
use k8s_eviction_controller.Controller.Reaction.{add_evicts}
use k8s_eviction_controller.Tests.Memory.{World, memory, memory-SortsSlices, memory-FindsByName}
use k8s_eviction_controller.Tests.Queue.{
  Fifo, fifo, fifo-GivesAdded, fifo-empty, fifo-DrainsOnShutDown,
}
use k8s_eviction_controller.Tests.Processes.{pool, loaded, both_busy, both_busy-Reach, reconcile}
use k8s_eviction_controller.Tests.Requests.{web, pod_reference, text-ne}

add_evicts_example :
    let t =
      process_next_work_item fifo reconcile
        (handle_eviction_request_add fifo reconcile (request_at 1) pool) in
    (t ≡ passed true (pool_of t))
    × (evictions (pool_of t).calls ≡ eviction_of web ∷ [])
    × ((pool_of t).queue_calls
        ≡ done (request_at 2) ∷ forgotten (request_at 2) ∷ added (request_at 2) ∷ [])
add_evicts_example =
    add_evicts fifo memory 1 "drain-web" pool pod_reference web web refl refl refl refl
      (text-ne _ _ refl) refl refl refl refl

-- Worker 0 ends its pass on the request with a pod and no interceptors, while worker 1 is busy.
abbrev after_pass : Pool Fifo World
after_pass = pool_of (process_item fifo reconcile (request_at 1) both_busy.pool)

pass :
    Step fifo reconcile both_busy
      (record { pool = after_pass; worker = update both_busy.worker 0 idle })
unfolding process_item settle sync_handler reconcile_eviction_request reconcile_pod ensure_policy
    proceed perform evict_pod upsert_condition
pass = finish 0 (request_at 1) after_pass refl refl

evicts : evictions after_pass.calls ≢ []
unfolding process_item settle sync_handler reconcile_eviction_request reconcile_pod ensure_policy
    proceed perform evict_pod upsert_condition
evicts e = cc

step_evicts_last_example :
    (i : ℕ) × (a : ℕ) × (both_busy.worker i ≡ busy (request_at a))
    × IsExhausted memory (both_busy.pool.heap a)
    × MatchesPod memory (state_of fifo memory a both_busy.pool)
step_evicts_last_example = step_evicts_last fifo memory memory-SortsSlices pass evicts

-- The object at 1 is enqueued, worker 0 takes its copy at 2, and ends its pass on it.
abbrev delivered : System fifo reconcile
delivered = record {
  pool = enqueue fifo reconcile (request_at 1) pool;
  worker = (start_workers fifo reconcile pool).worker;
}

abbrev taken : System fifo reconcile
taken = record {
  pool = record delivered.pool { workqueue = (fifo.get delivered.pool.workqueue).1 };
  worker = update delivered.worker 0 (busy (request_at 2));
}

abbrev finished : System fifo reconcile
finished = record {
  pool = pool_of (process_item fifo reconcile (request_at 2) taken.pool);
  worker = update taken.worker 0 idle;
}

finished-Reach : Reach fifo reconcile pool finished
unfolding enqueue process_item settle sync_handler reconcile_eviction_request reconcile_pod
    ensure_policy proceed perform evict_pod upsert_condition
finished-Reach =
    later
      (later (later start (deliver (request_at 1) (omega arith))) (take 0 (request_at 2) refl refl))
      (finish 0 (request_at 2) finished.pool refl refl)

-- The pass wrote the report to the copy.
copy_written : (finished.pool.heap 2).status.conditions ≢ []
unfolding enqueue process_item settle sync_handler reconcile_eviction_request reconcile_pod
    ensure_policy proceed perform evict_pod upsert_condition
copy_written e = cc

cache_untouched_example : finished.pool.heap 1 ≡ pool.heap 1
cache_untouched_example =
    cache_untouched fifo fifo-GivesAdded reconcile pool finished 1 fifo-empty finished-Reach
      (omega arith)

calls_traceable_example :
    All (IsFrom 2 pool.heap) (updates finished.pool.calls)
    × All (IsAskedFor 2 pool.heap) (evictions finished.pool.calls)
calls_traceable_example =
    calls_traceable fifo fifo-GivesAdded memory memory-SortsSlices memory-FindsByName pool finished
      fifo-empty refl finished-Reach

-- The context ends while both workers are busy, and worker 0 ends its pass.
abbrev closing : System fifo reconcile
closing = record both_busy { pool = shut_down fifo reconcile both_busy.pool }

abbrev closed : System fifo reconcile
closed = record {
  pool = pool_of (process_item fifo reconcile (request_at 1) closing.pool);
  worker = update closing.worker 0 idle;
}

closing-Run : Run fifo reconcile closing 1 closed
unfolding shut_down process_item settle sync_handler reconcile_eviction_request reconcile_pod
    ensure_policy proceed perform evict_pod upsert_condition
closing-Run = step halt (finish 0 (request_at 1) closed.pool refl refl)

closing-IsShut : fifo-DrainsOnShutDown.IsShut closing.pool.workqueue
unfolding shut_down
closing-IsShut = fifo-DrainsOnShutDown.after both_busy.pool.workqueue

workers_end_example :
    (1 ≤ 2 * fifo-DrainsOnShutDown.left closing.pool.workqueue + 2 * worker_count)
    × ((i : ℕ)
        → (closed.worker i ≡ stopped)
          ⊎ Moves fifo reconcile fifo-DrainsOnShutDown closed i
          ⊎ BringsDown fifo reconcile fifo-DrainsOnShutDown closed i)
workers_end_example =
    workers_end fifo reconcile fifo-DrainsOnShutDown loaded closing closed 1
      (later both_busy-Reach cancel) closing-IsShut closing-Run
