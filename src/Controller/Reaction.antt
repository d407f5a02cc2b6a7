-- ===== src/Controller/Reaction.antt =====
-- From an event to the eviction: the event handler, the queue, a worker's pass and the reconciler.
use mathlib.Core.Option
use k8s_eviction_controller.Prelude.{
  ℕ, ◌≡◌, ◌≢◌, refl, ap, ◌∙◌, String, true, Option, none, some, [], ◌∷◌, arith,
}
use k8s_eviction_controller.Api.{EvictionRequest, LocalPodReference}
use k8s_eviction_controller.Cluster.{
  Env, Err, wrapped, Exit, returned, panicked, State, Pod, found, evictions, final, result,
}
use k8s_eviction_controller.Eviction.{eviction_of}
use k8s_eviction_controller.Reconciler.{reconcile_eviction_request}
use k8s_eviction_controller.Reconciler.Safety.{answer_of}
use k8s_eviction_controller.Reconciler.Repeat.{second_answer, reconcile_evicts_second}
use k8s_eviction_controller.Worker.{
  write, Obj, request_at, key, Workqueue, Pool, passed, pool_of, added, done, forgotten, enqueue,
  sync_handler, settle, process_item, process_next_work_item,
}
use k8s_eviction_controller.Worker.Protocol.{processed}
use k8s_eviction_controller.Worker.Evictions.{state_of}
use k8s_eviction_controller.Controller.{handle_eviction_request_add}

module _ (w : Workqueue) (env : Env) where
  abbrev reconcile : State env.World → Exit env.World (Option Err)
  reconcile = reconcile_eviction_request env

  settle_done :
      (a : ℕ) (k : String) (p : Pool w.Queue env.World) (exit : Exit env.World (Option Err))
      → result exit ≡ some none
      → let t = settle w reconcile a k p exit in
        (t ≡ passed true (pool_of t))
        × ((pool_of t).calls ≡ (final exit).calls)
        × ((pool_of t).queue_calls ≡ done (request_at a) ∷ forgotten (request_at a) ∷ p.queue_calls)
  unfolding settle
  settle_done a k p (returned none t) e = (refl, refl, refl)
  settle_done a k p (returned (some err) t) e = cc
  settle_done a k p (panicked t) e = cc

  -- An item that the reconciler handles without an error.
  item_done :
      (a : ℕ) (k : String) (p : Pool w.Queue env.World)
      → w.key_of (p.heap a) ≡ key k
      → result (reconcile (state_of w env a p)) ≡ some none
      → let t = process_item w reconcile (request_at a) p in
        (t ≡ passed true (pool_of t))
        × ((pool_of t).calls ≡ (final (reconcile (state_of w env a p))).calls)
        × ((pool_of t).queue_calls ≡ done (request_at a) ∷ forgotten (request_at a) ∷ p.queue_calls)
  unfolding sync_handler
  item_done a k p known e = rw (processed w reconcile a k p known) (settle_done a k p _ e)

  pub next_item :
      (p : Pool w.Queue env.World) (obj : Obj)
      → (w.get p.workqueue).0 ≡ some obj
      → process_next_work_item w reconcile p
        ≡ process_item w reconcile obj (record p { workqueue = (w.get p.workqueue).1 })
  unfolding process_next_work_item
  next_item p obj got = rw (got, process_next_work_item) refl

  -- `p` after a copy of the object at `a` was queued and taken.
  abbrev pub taken : ℕ → Pool w.Queue env.World → Pool w.Queue env.World
  taken a p =
      let q = handle_eviction_request_add w reconcile (request_at a) p in
      record q { workqueue = (w.get q.workqueue).1 }

  pub write_lem : (heap : ℕ → EvictionRequest) (a : ℕ) (r : EvictionRequest) → write heap a r a ≡ r
  write_lem heap a r = ground arith

  pub add_lem :
      (a : ℕ) (k : String) (p : Pool w.Queue env.World)
      → w.key_of (p.heap a) ≡ key k
      → let q = handle_eviction_request_add w reconcile (request_at a) p in
        (q.workqueue ≡ w.add p.workqueue (request_at p.next))
        × (q.queue_calls ≡ added (request_at p.next) ∷ p.queue_calls)
        × (q.heap p.next ≡ p.heap a)
        × (state_of w env p.next q ≡ state_of w env a p)
  unfolding handle_eviction_request_add enqueue
  add_lem a k p known = (
    ground arith,
    ground arith,
    ground arith,
    rw (known, enqueue)
        (ap (λ r. record { world = p.world; request = r; calls = p.calls })
          (write_lem p.heap p.next (p.heap a))),
  )

  -- A new request with a key, a policy, no interceptors and a pod of the reference's UID, whose
  -- eviction is granted, and a queue that hands the item that is added to it out next: the event
  -- and one pass of a worker send one eviction, of the pod that the second look-up gives, and the
  -- item is forgotten and done.
  pub add_evicts :
      (a : ℕ) (k : String) (p : Pool w.Queue env.World) (ref : LocalPodReference) (pod other : Pod)
      → let s = state_of w env a p in
        let obj = request_at p.next in
        w.key_of s.request ≡ key k
        → (w.get (w.add p.workqueue obj)).0 ≡ some obj
        → s.request.spec.target.pod_ref ≡ some ref
        → s.request.spec.interceptors ≡ []
        → s.request.status.eviction_request_cancellation_policy ≢ ""
        → (answer_of env s ref).1 ≡ found pod
        → pod.uid ≡ ref.uid
        → (second_answer env s ref).1 ≡ found other
        → (env.evict (second_answer env s ref).0 (eviction_of other)).1 ≡ none
        → let t =
            process_next_work_item w reconcile
              (handle_eviction_request_add w reconcile (request_at a) p) in
          (t ≡ passed true (pool_of t))
          × (evictions (pool_of t).calls ≡ eviction_of other ∷ evictions p.calls)
          × ((pool_of t).queue_calls ≡ done obj ∷ forgotten obj ∷ added obj ∷ p.queue_calls)
  add_evicts a k p ref pod other known next e none_left policy l u l' granted =
      let s = state_of w env a p in
      let q = handle_eviction_request_add w reconcile (request_at a) p in
      let (queue, queue_calls, copied, same) = add_lem a k p known in
      let stepped = next_item q (request_at p.next) (ap (λ x. (w.get x).0) queue ∙ next) in
      let (sent, answered) =
        reconcile_evicts_second env s ref pod other e none_left policy l u l' in
      let quiet =
        ap (λ z. result (reconcile z)) same
        ∙ answered
        ∙ ap (λ o. some (Option.map (wrapped "failed to evict pod") o)) granted in
      let (passes, calls, ended) =
        item_done p.next k (taken a p) (ap w.key_of copied ∙ known) quiet in
      rw stepped (
        passes,
        ap evictions calls ∙ ap (λ z. evictions (final (reconcile z)).calls) same ∙ sent,
        ended
            ∙ ap (λ cs. done (request_at p.next) ∷ forgotten (request_at p.next) ∷ cs) queue_calls,
      )
