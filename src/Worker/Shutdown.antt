-- ===== src/Worker/Shutdown.antt =====
-- The end of a worker's loop after the queue is shut down, for any reconciler.
use k8s_eviction_controller.Prelude.{
  ℕ, zero, suc, ◌<◌, ◌≤◌, ◌≡◌, ◌⊎◌, refl, inl, inr, Option, none, some, true, false, arith,
  Option-cases,
}
use k8s_eviction_controller.Cluster.{Err, M}
use k8s_eviction_controller.Worker.{
  Pass, Obj, Workqueue, Pool, passed, crashed, pool_of, Run, ended, went_down, process_item,
  process_next_work_item, run_worker, shut_down,
}
use k8s_eviction_controller.Worker.Protocol.{process_item-queue}

-- What client-go documents of a queue that is shut down: it takes no new items, and `get` hands out
-- those that are left. An item that was added again while it was processed counts as left, as
-- `done` puts it back.
pub record DrainsOnShutDown (w : Workqueue) : Type 1 where
  pub IsShut : w.Queue → Type 0
  pub left : w.Queue → ℕ
  pub after : (q : w.Queue) → IsShut (w.shut_down q)
  pub get : (q : w.Queue) → IsShut q → IsShut (w.get q).1
  pub get_some :
      (q : w.Queue) (obj : Obj) → IsShut q → (w.get q).0 ≡ some obj → left (w.get q).1 < left q
  pub get_none : (q : w.Queue) → IsShut q → (w.get q).0 ≡ none → left (w.get q).1 ≤ left q
  pub add :
      (q : w.Queue) (obj : Obj) → IsShut q → IsShut (w.add q obj) × (left (w.add q obj) ≤ left q)
  pub again : (q : w.Queue) → IsShut q → left (w.shut_down q) ≤ left q
  pub done :
      (q : w.Queue) (obj : Obj) → IsShut q → IsShut (w.done q obj) × (left (w.done q obj) ≤ left q)
  pub forget :
      (q : w.Queue) (obj : Obj)
      → IsShut q
      → IsShut (w.forget q obj) × (left (w.forget q obj) ≤ left q)
  pub add_rate_limited :
      (q : w.Queue) (obj : Obj)
      → IsShut q
      → IsShut (w.add_rate_limited q obj) × (left (w.add_rate_limited q obj) ≤ left q)

module _ (w : Workqueue) (drains : DrainsOnShutDown w) {W : Type 0}
    (reconcile : M W (Option Err)) where
  open drains use {IsShut, left}

  -- The queue `q` is shut down, and no more is left in it than in `p`.
  abbrev pub Shrinks : w.Queue → w.Queue → Type 0
  Shrinks p q = IsShut q × (left q ≤ left p)

  Shrinks-then : (p q r : w.Queue) → Shrinks p q → Shrinks q r → Shrinks p r
  Shrinks-then p q r (a, b) (c, d) = (c, omega arith)

  forgotten_and_done :
      (q : w.Queue) (obj : Obj) → IsShut q → Shrinks q (w.done (w.forget q obj) obj)
  forgotten_and_done q obj h =
      let first = drains.forget q obj h in
      Shrinks-then q (w.forget q obj) _ first (drains.done (w.forget q obj) obj first.0)

  requeued_and_done :
      (q : w.Queue) (obj : Obj) → IsShut q → Shrinks q (w.done (w.add_rate_limited q obj) obj)
  requeued_and_done q obj h =
      let first = drains.add_rate_limited q obj h in
      Shrinks-then q (w.add_rate_limited q obj) _ first
        (drains.done (w.add_rate_limited q obj) obj first.0)

  pub process_item-Shrinks :
      (obj : Obj) (p : Pool w.Queue W)
      → IsShut p.workqueue
      → Shrinks p.workqueue (pool_of (process_item w reconcile obj p)).workqueue
  process_item-Shrinks obj p h =
      process_item-queue w reconcile (Shrinks p.workqueue) obj p
        (forgotten_and_done p.workqueue obj h) (requeued_and_done p.workqueue obj h)
        (drains.done p.workqueue obj h)

  -- The loop has come to an end.
  abbrev pub Stops : Run w.Queue W → Type 0
  Stops run = (t : Pool w.Queue W) × ((run ≡ ended t) ⊎ (run ≡ went_down t))

  abbrev taken : Pool w.Queue W → Pool w.Queue W
  taken p = record p { workqueue = (w.get p.workqueue).1 }

  -- One turn of the loop, by the outcome of the pass on the item.
  turn-Stops :
      (n : ℕ) (p : Pool w.Queue W) (obj : Obj) (pass : Pass w.Queue W)
      → (w.get p.workqueue).0 ≡ some obj
      → process_item w reconcile obj (taken p) ≡ pass
      → Shrinks (taken p).workqueue (pool_of pass).workqueue
      → left (taken p).workqueue < n
      → ((t : Pool w.Queue W)
          → IsShut t.workqueue
          → left t.workqueue < n
          → Stops (run_worker w reconcile n t))
      → Stops (run_worker w reconcile (suc n) p)
  unfolding run_worker process_next_work_item
  turn-Stops n p obj (passed true t) e q (shut, le) lt rest =
      rw (e, q, run_worker) (rest t shut (omega arith))
  turn-Stops n p obj (passed false t) e q shrinks lt rest = rw (e, q, run_worker) (_, inl refl)
  turn-Stops n p obj (crashed t) e q shrinks lt rest = rw (e, q, run_worker) (_, inr refl)

  run_worker-Stops :
      (n : ℕ) (p : Pool w.Queue W)
      → IsShut p.workqueue
      → left p.workqueue < n
      → Stops (run_worker w reconcile n p)
  unfolding run_worker process_next_work_item
  run_worker-Stops zero p h fuel = absurd (omega arith)
  run_worker-Stops (suc n) p h fuel = elim (Option-cases (w.get p.workqueue).0) [
    | inl e ↦ rw (e, run_worker) (_, inl refl)
    | inr (obj, e) ↦
        let less = drains.get_some p.workqueue obj h e in
        turn-Stops n p obj _ e refl (process_item-Shrinks obj (taken p) (drains.get p.workqueue h))
          (omega arith) (run_worker-Stops n)
  ]

  -- For any reconciler: once the queue is shut down, the loop of a worker comes to an end within
  -- any number of turns that exceeds the number of items left, on the queue's word or by a panic.
  pub shut_down-Stops :
      (n : ℕ) (p : Pool w.Queue W)
      → left (w.shut_down p.workqueue) < n
      → Stops (run_worker w reconcile n (shut_down w reconcile p))
  unfolding shut_down
  shut_down-Stops n p fuel = run_worker-Stops n _ (drains.after p.workqueue) fuel
