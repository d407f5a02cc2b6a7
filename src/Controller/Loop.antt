-- ===== src/Controller/Loop.antt =====
-- A turn of the control loop through the event handler, the queue and a worker.
use k8s_eviction_controller.Prelude.{
  ℕ, ◌≡◌, ◌≢◌, ◌++◌, inl, inr, Bool-cases, refl, ap, ◌∙◌, String, true, false, Option, some, none,
}
use k8s_eviction_controller.Cluster.{
  Env, Err, Exit, returned, panicked, State, panics, final, result,
}
use k8s_eviction_controller.Reconciler.{reconcile_eviction_request}
use k8s_eviction_controller.Interceptor.Priority.{SortsSlices}
use k8s_eviction_controller.Reconciler.Safety.{reconcile_panics_iff}
use k8s_eviction_controller.Reconciler.Calls.{after_calls, reconcile-after_calls}
use k8s_eviction_controller.Reconciler.Server.{Serves, informed, turn}
use k8s_eviction_controller.Worker.{
  Obj, request_at, key, Workqueue, Pass, Pool, passed, pool_of, sync_handler, settle, process_item,
  process_next_work_item,
}
use k8s_eviction_controller.Worker.Protocol.{processed}
use k8s_eviction_controller.Worker.Evictions.{state_of}
use k8s_eviction_controller.Controller.{handle_eviction_request_add, handle_eviction_request_update}
use k8s_eviction_controller.Controller.Reaction.{add_lem, next_item, taken, write_lem}

module _ (w : Workqueue) (env : Env) where
  abbrev reconcile : State env.World → Exit env.World (Option Err)
  reconcile = reconcile_eviction_request env

  -- The queue after an item is forgotten and done.
  abbrev pub finished : w.Queue → Obj → w.Queue
  finished q obj = w.done (w.forget q obj) obj

  settle_shares :
      (a : ℕ) (k : String) (p : Pool w.Queue env.World) (exit : Exit env.World (Option Err))
      → panics exit ≡ false
      → let t = settle w reconcile a k p exit in
        (t ≡ passed true (pool_of t))
        × ((pool_of t).world ≡ (final exit).world)
        × ((pool_of t).calls ≡ (final exit).calls)
        × ((pool_of t).heap a ≡ (final exit).request)
        × (result exit ≡ some none → (pool_of t).workqueue ≡ finished p.workqueue (request_at a))
  unfolding settle
  settle_shares a k p (returned none t) e =
      (refl, refl, refl, write_lem w env p.heap a t.request, λ q. refl)
  settle_shares a k p (returned (some err) t) e =
      (refl, refl, refl, write_lem w env p.heap a t.request, λ q. cc)
  settle_shares a k p (panicked t) e = cc

  -- The pass on an item whose reconciliation does not panic.
  item_shares :
      (a : ℕ) (k : String) (p : Pool w.Queue env.World)
      → w.key_of (p.heap a) ≡ key k
      → panics (reconcile (state_of w env a p)) ≡ false
      → let t = process_item w reconcile (request_at a) p in
        let s = final (reconcile (state_of w env a p)) in
        (t ≡ passed true (pool_of t))
        × ((pool_of t).world ≡ s.world)
        × ((pool_of t).calls ≡ s.calls)
        × ((pool_of t).heap a ≡ s.request)
        × (result (reconcile (state_of w env a p)) ≡ some none
            → (pool_of t).workqueue ≡ finished p.workqueue (request_at a))
  unfolding sync_handler
  item_shares a k p known e = rw (processed w reconcile a k p known) (settle_shares a k p _ e)

  update_adds :
      (old a : ℕ) (p : Pool w.Queue env.World)
      → handle_eviction_request_update w reconcile (request_at old) (request_at a) p
        ≡ handle_eviction_request_add w reconcile (request_at a) p
  unfolding handle_eviction_request_update handle_eviction_request_add
  update_adds old a p = refl

  -- The pool after an update event and one pass of a worker.
  abbrev pub after_update : ℕ → ℕ → Pool w.Queue env.World → Pass w.Queue env.World
  after_update old a p =
      process_next_work_item w reconcile
        (handle_eviction_request_update w reconcile (request_at old) (request_at a) p)

  module _ (serves : Serves env) where
    open serves use {stored}

    pub update_turns :
        (old a : ℕ) (k : String) (p : Pool w.Queue env.World)
        → let obj = request_at p.next in
          let t = after_update old a p in
          p.heap a ≡ stored p.world
          → w.key_of (p.heap a) ≡ key k
          → (w.get (w.add p.workqueue obj)).0 ≡ some obj
          → panics (reconcile (informed env serves p.world)) ≡ false
          → (t ≡ passed true (pool_of t))
            × ((pool_of t).world ≡ (turn env serves p.world).world)
            × ((pool_of t).calls ≡ (turn env serves p.world).calls ++ p.calls)
            × ((pool_of t).heap p.next ≡ (turn env serves p.world).request)
            × (result (reconcile (informed env serves p.world)) ≡ some none
                → (pool_of t).workqueue ≡ finished (w.get (w.add p.workqueue obj)).1 obj)
    update_turns old a k p current known next safe =
        let q = handle_eviction_request_add w reconcile (request_at a) p in
        let (queue, queue_calls, copied, same) = add_lem w env a k p known in
        let stepped = next_item w env q (request_at p.next) (ap (λ x. (w.get x).0) queue ∙ next) in
        let (answers, crashes, ends) =
          reconcile-after_calls env p.calls (informed env serves p.world) in
        let delivered : state_of w env p.next (taken w env a p)
            ≡ after_calls p.calls (informed env serves p.world) =
          same ∙ rw current refl in
        let (passes, world, calls, object, queued) =
          item_shares p.next k (taken w env a p) (ap w.key_of copied ∙ known)
            (rw delivered (crashes ∙ safe)) in
        let ended = ap (λ s. final (reconcile s)) delivered ∙ ends in
        rw (update_adds old a p, stepped)
          (
            passes,
            world ∙ ap (λ s. s.world) ended,
            calls ∙ ap (λ s. s.calls) ended,
            object ∙ ap (λ s. s.request) ended,
            λ nil.
                queued (ap (λ s. result (reconcile s)) delivered ∙ answers ∙ nil)
                ∙ ap (λ x. finished (w.get x).1 (request_at p.next)) queue,
          )

  module _ (sorts : SortsSlices env) (serves : Serves env) where
    open serves use {stored}

    total :
        (world : env.World)
        → (stored world).spec.target.pod_ref ≢ none
        → panics (reconcile (informed env serves world)) ≡ false
    total world named = elim (Bool-cases (panics (reconcile (informed env serves world)))) [
      | inl e ↦ absurd (named ((reconcile_panics_iff env sorts (informed env serves world)).0 e))
      | inr e ↦ e
    ]

    -- An update event that delivers the stored object, with a key and a pod reference, and one pass
    -- of a worker, to whom the queue hands the new item next: the world and the object in memory
    -- are those of one turn of the control loop, and its calls are added to those sent before.
    pub event_is_turn :
        (old a : ℕ) (k : String) (p : Pool w.Queue env.World)
        → let obj = request_at p.next in
          p.heap a ≡ stored p.world
          → w.key_of (p.heap a) ≡ key k
          → (w.get (w.add p.workqueue obj)).0 ≡ some obj
          → (stored p.world).spec.target.pod_ref ≢ none
          → let t = after_update old a p in
            (t ≡ passed true (pool_of t))
            × ((pool_of t).world ≡ (turn env serves p.world).world)
            × ((pool_of t).calls ≡ (turn env serves p.world).calls ++ p.calls)
            × ((pool_of t).heap p.next ≡ (turn env serves p.world).request)
    event_is_turn old a k p current known next named =
        let (passes, world, calls, object, queued) =
          update_turns serves old a k p current known next (total p.world named) in
        (passes, world, calls, object)
