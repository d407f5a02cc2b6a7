-- ===== src/Controller/Delivery.antt =====
-- What the event handlers put on the work queue.
use k8s_eviction_controller.Prelude.{ℕ, ◌≡◌, ◌⊎◌, inl, inr, refl, Option, ◌∷◌, String, arith}
use k8s_eviction_controller.Cluster.{Err, wrapped, M}
use k8s_eviction_controller.Worker.{
  Obj, request_at, other, Key, key, bad_key, Workqueue, added, Pool, enqueue,
}
use k8s_eviction_controller.Controller.{handle_eviction_request_update}

module _ (w : Workqueue) {W : Type 0} (reconcile : M W (Option Err)) where
  -- `q` is `p` with a copy of the object at `b` made at a fresh address, and queued.
  abbrev pub Queues : ℕ → Pool w.Queue W → Pool w.Queue W → Type 0
  Queues b p q =
      (q.workqueue ≡ w.add p.workqueue (request_at p.next))
      × (q.queue_calls ≡ added (request_at p.next) ∷ p.queue_calls)
      × (q.heap p.next ≡ p.heap b)
      × (q.errors ≡ p.errors)

  -- The queue, the objects and the world of `q` are those of `p`.
  abbrev pub Ignores : Pool w.Queue W → Pool w.Queue W → Type 0
  Ignores p q =
      (q.workqueue ≡ p.workqueue)
      × (q.queue_calls ≡ p.queue_calls)
      × (q.heap ≡ p.heap)
      × (q.world ≡ p.world)

  -- One of the two objects is no request, and nothing is reported; or the new one has no key, and
  -- that is reported.
  abbrev pub Unfit : Obj → Obj → Pool w.Queue W → Pool w.Queue W → Type 0
  Unfit old new p q =
      ((value : String) × ((old ≡ other value) ⊎ (new ≡ other value)) × (q.errors ≡ p.errors))
      ⊎ ((b : ℕ) × (cause : Err) × (new ≡ request_at b)
          × (w.key_of (p.heap b) ≡ bad_key cause)
          × (q.errors ≡ wrapped "error obtaining key for object" cause ∷ p.errors))

  abbrev Delivers : Obj → Obj → Pool w.Queue W → Pool w.Queue W → Type 0
  Delivers old new p q =
      ((a : ℕ) × (b : ℕ) × (k : String) × (old ≡ request_at a)
        × (new ≡ request_at b)
        × (w.key_of (p.heap b) ≡ key k)
        × Queues b p q)
      ⊎ (Unfit old new p q × Ignores p q)

  by_key :
      (a b : ℕ) (p : Pool w.Queue W) (answer : Key)
      → w.key_of (p.heap b) ≡ answer
      → Delivers
          (request_at a)
          (request_at b)
          p
          (handle_eviction_request_update w reconcile (request_at a) (request_at b) p)
  unfolding handle_eviction_request_update enqueue
  by_key a b p (key k) e = inl (a, b, k, refl, refl, e, ground arith)
  by_key a b p (bad_key err) e = inr (inr (b, err, refl, e, ground arith), ground arith)

  -- An update event queues a copy of the new object, which then has a key, if both objects are
  -- requests; or one of the two is no request, or the new one has no key, which is reported. Then
  -- the queue, the objects and the world stay as they were.
  pub update_delivers :
      (old new : Obj) (p : Pool w.Queue W)
      → let q = handle_eviction_request_update w reconcile old new p in
        ((a : ℕ) × (b : ℕ) × (k : String) × (old ≡ request_at a)
          × (new ≡ request_at b)
          × (w.key_of (p.heap b) ≡ key k)
          × Queues b p q)
        ⊎ (Unfit old new p q × Ignores p q)
  unfolding handle_eviction_request_update
  update_delivers (other value) new p = inr (inl (value, inl refl, refl), (refl, refl, refl, refl))
  update_delivers (request_at a) (other value) p =
      inr (inl (value, inr refl, refl), (refl, refl, refl, refl))
  update_delivers (request_at a) (request_at b) p = by_key a b p _ refl
