-- ===== src/Worker/Evictions.antt =====
-- The worker pool, the event handlers and the reconciler together: which steps send evictions, and
-- how an event leads to one.
use k8s_eviction_controller.Prelude.{
  ℕ, ◌≡◌, ◌≢◌, ◌⊎◌, refl, sym, ap, ◌∙◌, inl, inr, String, Option, none, some,
}
use k8s_eviction_controller.Cluster.{Env, Err, Exit, returned, panicked, State, evictions, final}
use k8s_eviction_controller.Interceptor.Priority.{SortsSlices}
use k8s_eviction_controller.Interceptor.Effects.{IsExhausted}
use k8s_eviction_controller.Reconciler.{reconcile_eviction_request}
use k8s_eviction_controller.Reconciler.Safety.{MatchesPod, reconcile_evicts_last}
use k8s_eviction_controller.Worker.{
  Obj, request_at, other, Key, key, bad_key, Workqueue, Pool, pool_of, enqueue, sync_handler,
  settle, process_item, shut_down,
}
use k8s_eviction_controller.Worker.Protocol.{processed}
use k8s_eviction_controller.Worker.Concurrent.{
  busy, System, Step, take, finish, stop, deliver, cancel,
}

module _ (w : Workqueue) (env : Env) where
  abbrev reconcile : State env.World → Exit env.World (Option Err)
  reconcile = reconcile_eviction_request env

  -- What the reconciler is given for the object at `a`.
  abbrev pub state_of : ℕ → Pool w.Queue env.World → State env.World
  state_of a p = record { world = p.world; request = p.heap a; calls = p.calls }

  settle-calls :
      (a : ℕ) (k : String) (p : Pool w.Queue env.World) (exit : Exit env.World (Option Err))
      → (pool_of (settle w reconcile a k p exit)).calls ≡ (final exit).calls
  unfolding settle
  settle-calls a k p (returned none t) = refl
  settle-calls a k p (returned (some e) t) = refl
  settle-calls a k p (panicked t) = refl

  calls_by_key :
      (a : ℕ) (p : Pool w.Queue env.World) (answer : Key)
      → w.key_of (p.heap a) ≡ answer
      → let t = pool_of (process_item w reconcile (request_at a) p) in
        (t.calls ≡ p.calls) ⊎ (t.calls ≡ (final (reconcile (state_of a p))).calls)
  unfolding process_item sync_handler
  calls_by_key a p (key k) known =
      inr (rw (processed w reconcile a k p known) (settle-calls a k p _))
  calls_by_key a p (bad_key e) known = inl (rw (known, process_item) refl)

  enqueue_calls_by_key :
      (a : ℕ) (p : Pool w.Queue env.World) (answer : Key)
      → w.key_of (p.heap a) ≡ answer
      → (enqueue w reconcile (request_at a) p).calls ≡ p.calls
  unfolding enqueue
  enqueue_calls_by_key a p (key k) known = rw (known, enqueue) refl
  enqueue_calls_by_key a p (bad_key e) known = rw (known, enqueue) refl

  pub enqueue-calls :
      (obj : Obj) (p : Pool w.Queue env.World) → (enqueue w reconcile obj p).calls ≡ p.calls
  unfolding enqueue
  enqueue-calls (other value) p = refl
  enqueue-calls (request_at a) p = enqueue_calls_by_key a p _ refl

  module _ (sorts : SortsSlices env) where
    item_evicts_last :
        (obj : Obj) (p : Pool w.Queue env.World)
        → evictions (pool_of (process_item w reconcile obj p)).calls ≢ evictions p.calls
        → (a : ℕ) × (obj ≡ request_at a)
          × IsExhausted env (p.heap a)
          × MatchesPod env (state_of a p)
    unfolding process_item
    item_evicts_last (other value) p h = absurd (h refl)
    item_evicts_last (request_at a) p h = elim (calls_by_key a p _ refl) [
      | inl e ↦ absurd (h (ap evictions e))
      | inr e ↦
          let (left, matches) =
            reconcile_evicts_last env sorts (state_of a p) (λ same. h (ap evictions e ∙ same)) in
          (a, refl, left, matches)
    ]

    -- In every interleaving of the workers, the event handlers and the end of the context, a step
    -- that sends an eviction is the end of a worker's pass on a request whose pod the lister then
    -- knew with the UID of the reference, and which, as it stood before the step, listed no
    -- interceptors, or had the active one marked as completed and, in the order of the interceptors
    -- by falling priority, the first entry of its class was the last of all, or its class was not
    -- listed.
    pub step_evicts_last :
        {s t : System w reconcile}
        → Step w reconcile s t
        → evictions t.pool.calls ≢ evictions s.pool.calls
        → (i : ℕ) × (a : ℕ) × (s.worker i ≡ busy (request_at a))
          × IsExhausted env (s.pool.heap a)
          × MatchesPod env (state_of a s.pool)
    unfolding shut_down
    step_evicts_last (take i obj free got) h = absurd (h refl)
    step_evicts_last {s} (finish i obj p has pass) h =
        let (a, same, left, matches) =
          item_evicts_last obj s.pool
            (λ e. h (ap (λ t. evictions (pool_of t).calls) (sym pass) ∙ e)) in
        (i, a, has ∙ ap busy same, left, matches)
    step_evicts_last (stop i free none_left) h = absurd (h refl)
    step_evicts_last {s} (deliver obj there) h =
        absurd (h (ap evictions (enqueue-calls obj s.pool)))
    step_evicts_last cancel h = absurd (h refl)
