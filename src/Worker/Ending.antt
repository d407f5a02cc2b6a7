-- ===== src/Worker/Ending.antt =====
-- The end of all worker loops after the queue is shut down, in every interleaving.
use k8s_eviction_controller.Prelude.{
  ℕ, ◌+◌, ◌*◌, ◌<◌, ◌≤◌, ◌≡◌, ◌≢◌, ◌⊎◌, refl, ap, ◌∙◌, subst, inl, inr, true, Option, Option-cases,
  arith,
}
use k8s_eviction_controller.Cluster.{Err, M}
use k8s_eviction_controller.Worker.{
  Obj, request_at, other, Key, key, bad_key, Workqueue, Pool, passed, crashed, pool_of,
  worker_count, enqueue, process_item, shut_down,
}
use k8s_eviction_controller.Worker.Concurrent.{
  Activity, idle, busy, stopped, update, System, Step, take, finish, stop, deliver, cancel, Reach,
  start, later,
}
use k8s_eviction_controller.Worker.Activities.{update-cases}
use k8s_eviction_controller.Worker.Counting.{weight, total, total-le, total-update, update-moves}
use k8s_eviction_controller.Worker.Protocol.{process_item_protocol}
use k8s_eviction_controller.Worker.Shutdown.{DrainsOnShutDown, Shrinks, process_item-Shrinks}

module _ (w : Workqueue) {W : Type 0} (reconcile : M W (Option Err)) where
  -- Only the goroutines that were started are not stopped.
  abbrev Supported : System w reconcile → Type 0
  Supported s = (i : ℕ) → s.worker i ≢ stopped → i < worker_count

  update-Supported :
      (f : ℕ → Activity) (i : ℕ) (a : Activity)
      → f i ≢ stopped
      → ((j : ℕ) → f j ≢ stopped → j < worker_count)
      → (j : ℕ) → update f i a j ≢ stopped
      → j < worker_count
  update-Supported f i a ne sup j h = elim (update-cases f i a j) [
    | inl (e, u) ↦ subst (λ n. n < worker_count) e (sup i ne)
    | inr (n, u) ↦ sup j (λ q. h (u ∙ q))
  ]

  Step-Supported : {s t : System w reconcile} → Step w reconcile s t → Supported s → Supported t
  Step-Supported {s} (take i obj free got) sup = update-Supported s.worker i _ (λ q. cc) sup
  Step-Supported {s} (finish i obj p has pass) sup = update-Supported s.worker i _ (λ q. cc) sup
  Step-Supported {s} (stop i free none_left) sup = update-Supported s.worker i _ (λ q. cc) sup
  Step-Supported (deliver obj there) sup = sup
  Step-Supported cancel sup = sup

  Reach-Supported :
      {p : Pool w.Queue W} {s : System w reconcile} → Reach w reconcile p s → Supported s
  Reach-Supported start = λ i h. ground arith
  Reach-Supported (later r step) = Step-Supported step (Reach-Supported r)

  -- Whether a worker takes the step.
  abbrev pub work : {s t : System w reconcile} → Step w reconcile s t → ℕ
  work (take i obj free got) = 1
  work (finish i obj p has pass) = 1
  work (stop i free none_left) = 1
  work (deliver obj there) = 0
  work cancel = 0

  -- Steps from `s`, of which the workers take `n`.
  pub data Run (s : System w reconcile) : ℕ → System w reconcile → Type 0 where
    halt : Run s 0 s
    step :
        {n : ℕ} {t u : System w reconcile}
        → Run s n t
        → (x : Step w reconcile t u) → Run s (work x + n) u

  item_ends :
      (obj : Obj) (p : Pool w.Queue W)
      → ((q : Pool w.Queue W) × (process_item w reconcile obj p ≡ passed true q))
        ⊎ ((q : Pool w.Queue W) × (process_item w reconcile obj p ≡ crashed q))
  item_ends obj p = elim (process_item_protocol w reconcile obj p) [
    | inl (a, k, at, left, panic, e, calls) ↦ inr (_, e)
    | inr (inl (a, k, err, at, left, answer, e, calls, errors)) ↦ inl (_, e)
    | inr (inr (inl (a, k, at, left, answer, e, calls, errors))) ↦ inl (_, e)
    | inr (inr (inr (err, why, e, c, d, heap, world, calls))) ↦ inl (_, e)
  ]

  module _ (drains : DrainsOnShutDown w) where
    open drains use {IsShut, left}

    -- The next lemmas count the steps of the workers by what is left.
    abbrev measure : System w reconcile → ℕ
    measure s = 2 * left s.pool.workqueue + total worker_count s.worker

    -- What holds after the end of the context.
    abbrev Closing : System w reconcile → Type 0
    Closing s = IsShut s.pool.workqueue × Supported s

    enqueue_by_key :
        (a : ℕ) (p : Pool w.Queue W) (answer : Key)
        → w.key_of (p.heap a) ≡ answer
        → IsShut p.workqueue
        → Shrinks w drains reconcile p.workqueue (enqueue w reconcile (request_at a) p).workqueue
    unfolding enqueue
    enqueue_by_key a p (key k) known h = rw (known, enqueue) (drains.add p.workqueue _ h)
    enqueue_by_key a p (bad_key e) known h = rw (known, enqueue) (h, omega arith)

    enqueue-Shrinks :
        (obj : Obj) (p : Pool w.Queue W)
        → IsShut p.workqueue
        → Shrinks w drains reconcile p.workqueue (enqueue w reconcile obj p).workqueue
    unfolding enqueue
    enqueue-Shrinks (other value) p h = (h, omega arith)
    enqueue-Shrinks (request_at a) p h = enqueue_by_key a p _ refl h

    Step-measure :
        {s t : System w reconcile} (x : Step w reconcile s t)
        → Closing s
        → IsShut t.pool.workqueue × (work x + measure t ≤ measure s)
    unfolding shut_down
    Step-measure {s} (take i obj free got) (shut, sup) = (
      drains.get s.pool.workqueue shut,
      let less = drains.get_some s.pool.workqueue obj shut got in
          let own = ap weight free in
          let moved = total-update worker_count s.worker i (busy obj) (sup i (λ q. cc)) in
          omega arith,
    )
    Step-measure {s} (finish i obj p has pass) (shut, sup) =
        let shrinks =
          subst (λ r. Shrinks w drains reconcile s.pool.workqueue (pool_of r).workqueue) pass
            (process_item-Shrinks w drains reconcile obj s.pool shut) in
        let own = ap weight has in
        let moved = total-update worker_count s.worker i idle (sup i (λ q. cc)) in
        (shrinks.0, let le = shrinks.1 in omega arith)
    Step-measure {s} (stop i free none_left) (shut, sup) = (
      drains.get s.pool.workqueue shut,
      let le = drains.get_none s.pool.workqueue shut none_left in
          let own = ap weight free in
          let moved = total-update worker_count s.worker i stopped (sup i (λ q. cc)) in omega arith,
    )
    Step-measure {s} (deliver obj there) (shut, sup) =
        let (still, le) = enqueue-Shrinks obj s.pool shut in (still, omega arith)
    Step-measure {s} cancel (shut, sup) =
        (drains.after s.pool.workqueue, let le = drains.again s.pool.workqueue shut in omega arith)

    Run-measure :
        {s t : System w reconcile} {n : ℕ}
        → Run s n t
        → Closing s
        → Closing t × (n + measure t ≤ measure s)
    Run-measure halt closing = (closing, omega arith)
    Run-measure (step r x) closing =
        let (between, le) = Run-measure r closing in
        let (shut, less) = Step-measure x between in
        ((shut, Step-Supported x between.1), omega arith)

    -- A step of worker `i`.
    abbrev pub Moves : System w reconcile → ℕ → Type 0
    Moves s i =
        (t : System w reconcile) × (x : Step w reconcile s t) × (work x ≡ 1)
        × (t.worker i ≢ s.worker i)

    -- The reconciler panics on the item of worker `i`, which ends the process.
    abbrev pub BringsDown : System w reconcile → ℕ → Type 0
    BringsDown s i =
        (obj : Obj) × (p : Pool w.Queue W) × (s.worker i ≡ busy obj)
        × (process_item w reconcile obj s.pool ≡ crashed p)

    worker-Moves :
        (s : System w reconcile) (i : ℕ) (a : Activity)
        → s.worker i ≡ a
        → (a ≡ stopped) ⊎ Moves s i ⊎ BringsDown s i
    worker-Moves s i idle e = elim (Option-cases (w.get s.pool.workqueue).0) [
      | inl got ↦
          inr (inl (_, stop i e got, refl, update-moves s.worker i idle stopped e (λ q. cc)))
      | inr (obj, got) ↦
          inr (inl (_, take i obj e got, refl, update-moves s.worker i idle (busy obj) e (λ q. cc)))
    ]
    worker-Moves s i (busy obj) e = elim (item_ends obj s.pool) [
      | inl (p, pass) ↦ inr (
          inl (_, finish i obj p e pass, refl, update-moves s.worker i (busy obj) idle e (λ q. cc)))
      | inr (p, crash) ↦ inr (inr (obj, p, e, crash))
    ]
    worker-Moves s i stopped e = inl refl

    -- Once the queue is shut down, in every interleaving with events and with each other, the
    -- workers take together no more than two steps for each item that is left and two for each
    -- worker; and as long as a worker has not stopped it can take a step, or the reconciler panics
    -- on its item.
    pub workers_end :
        (p : Pool w.Queue W) (s t : System w reconcile) (n : ℕ)
        → Reach w reconcile p s
        → IsShut s.pool.workqueue
        → Run s n t
        → (n ≤ 2 * left s.pool.workqueue + 2 * worker_count)
          × ((i : ℕ) → (t.worker i ≡ stopped) ⊎ Moves t i ⊎ BringsDown t i)
    workers_end p s t n reach shut run =
        let (closing, le) = Run-measure run (shut, Reach-Supported reach) in
        let few = total-le worker_count s.worker in
        (omega arith, λ i. worker-Moves t i (t.worker i) refl)
