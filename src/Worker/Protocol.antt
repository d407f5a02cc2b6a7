-- ===== src/Worker/Protocol.antt =====
-- What one pass of a worker does to the queue and to the objects, for any queue and any reconciler.
use k8s_eviction_controller.Prelude.{
  ℕ, ◌<◌, ◌≡◌, ◌≢◌, ◌<>◌, refl, sym, ap, ◌∙◌, ◌⊎◌, inl, inr, String, true, Option, none, some, ◌∷◌,
  arith,
}
use k8s_eviction_controller.Cluster.{
  Err, message, wrapped, Exit, returned, panicked, M, panics, result, final,
}
use k8s_eviction_controller.Worker.{
  Obj, request_at, other, Key, key, bad_key, Workqueue, added, done, forgotten, rate_limited, Pool,
  passed, crashed, pool_of, enqueue, sync_handler, settle, process_item,
}

module _ (w : Workqueue) {W : Type 0} (reconcile : M W (Option Err)) where
  -- The item is the request at `a`, and it has a key.
  abbrev pub HasKey : Obj → Pool w.Queue W → ℕ → String → Type 0
  HasKey obj p a k = (obj ≡ request_at a) × (w.key_of (p.heap a) ≡ key k)

  -- The object at `a` and the world are as the reconciler left them.
  abbrev pub Reconciled : ℕ → Pool w.Queue W → Pool w.Queue W → Type 0
  Reconciled a p t =
      let end = final (sync_handler w reconcile a p) in
      (t.heap a ≡ end.request) × (t.world ≡ end.world) × (t.calls ≡ end.calls)

  -- The reconciler panicked on the request, which has a key: only Done is called, and the process
  -- ends.
  abbrev pub Crashes : Obj → Pool w.Queue W → Type 0
  Crashes obj p =
      let t = pool_of (process_item w reconcile obj p) in
      (a : ℕ) × (k : String) × HasKey obj p a k
      × Reconciled a p t
      × (panics (sync_handler w reconcile a p) ≡ true)
      × (process_item w reconcile obj p ≡ crashed t)
      × (t.queue_calls ≡ done obj ∷ p.queue_calls)

  -- The reconciler returned an error on the request, which has a key: the item is added again with a delay, and the error is
  -- reported.
  abbrev pub Retries : Obj → Pool w.Queue W → Type 0
  Retries obj p =
      let t = pool_of (process_item w reconcile obj p) in
      (a : ℕ) × (k : String) × (e : Err) × HasKey obj p a k
      × Reconciled a p t
      × (result (sync_handler w reconcile a p) ≡ some (some e))
      × (process_item w reconcile obj p ≡ passed true t)
      × (t.queue_calls ≡ done obj ∷ rate_limited obj ∷ p.queue_calls)
      × (t.errors ≡ wrapped ("error syncing '" <> k <> "', requeuing") e ∷ p.errors)

  -- The reconciler returned nil on the request, which has a key: the item is forgotten.
  abbrev pub Succeeds : Obj → Pool w.Queue W → Type 0
  Succeeds obj p =
      let t = pool_of (process_item w reconcile obj p) in
      (a : ℕ) × (k : String) × HasKey obj p a k
      × Reconciled a p t
      × (result (sync_handler w reconcile a p) ≡ some none)
      × (process_item w reconcile obj p ≡ passed true t)
      × (t.queue_calls ≡ done obj ∷ forgotten obj ∷ p.queue_calls)
      × (t.errors ≡ p.errors)

  -- What is reported of an item that is no request, or of a request for which there is no key.
  abbrev pub IsRejection : Obj → Pool w.Queue W → Err → Type 0
  IsRejection obj p e =
      ((value : String) × (obj ≡ other value)
        × (e ≡ message "expected *v1alpha1.EvictionRequest in workqueue"))
      ⊎ ((a : ℕ) × (cause : Err) × (obj ≡ request_at a)
          × (w.key_of (p.heap a) ≡ bad_key cause)
          × (e ≡ wrapped "error obtaining key for eviction request" cause))

  -- The item is no request with a key: it is forgotten and reported, and the reconciler is not
  -- called.
  abbrev pub Rejects : Obj → Pool w.Queue W → Type 0
  Rejects obj p =
      let t = pool_of (process_item w reconcile obj p) in
      (e : Err) × IsRejection obj p e
      × (process_item w reconcile obj p ≡ passed true t)
      × (t.queue_calls ≡ done obj ∷ forgotten obj ∷ p.queue_calls)
      × (t.errors ≡ e ∷ p.errors)
      × (t.heap ≡ p.heap)
      × (t.world ≡ p.world)
      × (t.calls ≡ p.calls)

  pub processed :
      (a : ℕ) (k : String) (p : Pool w.Queue W)
      → w.key_of (p.heap a) ≡ key k
      → process_item w reconcile (request_at a) p
        ≡ settle w reconcile a k p (sync_handler w reconcile a p)
  unfolding process_item
  processed a k p known = rw (known, process_item) refl

  settle_outcome :
      (a : ℕ) (k : String) (p : Pool w.Queue W)
      → w.key_of (p.heap a) ≡ key k
      → (exit : Exit W (Option Err)) → sync_handler w reconcile a p ≡ exit
      → Crashes (request_at a) p
        ⊎ Retries (request_at a) p
        ⊎ Succeeds (request_at a) p
        ⊎ Rejects (request_at a) p
  unfolding settle
  settle_outcome a k p known (returned none t) e = inr (
      inr (
        inl (
          rw (processed a k p known) (
            rw e (
              a,
              k,
              (refl, known),
              (ground arith, ap (λ x. (final x).world) (sym e), ap (λ x. (final x).calls) (sym e)),
              ap result e,
              refl,
              refl,
              refl,
            )))))
  settle_outcome a k p known (returned (some err) t) e = inr (
      inl (
        rw (processed a k p known) (
          rw e (
            a,
            k,
            err,
            (refl, known),
            (ground arith, ap (λ x. (final x).world) (sym e), ap (λ x. (final x).calls) (sym e)),
            ap result e,
            refl,
            refl,
            refl,
          ))))
  settle_outcome a k p known (panicked t) e = inl (
      rw (processed a k p known) (
        rw e (
          a,
          k,
          (refl, known),
          (ground arith, ap (λ x. (final x).world) (sym e), ap (λ x. (final x).calls) (sym e)),
          ap panics e,
          refl,
          refl,
        )))

  by_key :
      (a : ℕ) (p : Pool w.Queue W) (answer : Key)
      → w.key_of (p.heap a) ≡ answer
      → Crashes (request_at a) p
        ⊎ Retries (request_at a) p
        ⊎ Succeeds (request_at a) p
        ⊎ Rejects (request_at a) p
  unfolding process_item
  by_key a p (key k) known = settle_outcome a k p known _ refl
  by_key a p (bad_key e) known = inr (
      inr (
        inr (
          rw (known, process_item)
            (_, inr (a, e, refl, known, refl), refl, refl, refl, refl, refl, refl))))

  -- One pass on an item does one of four things, and Done is the last queue call in each. For a
  -- request that has a key the reconciler's outcome decides which of the first three, and the object
  -- and the world are left as it left them; all other items are rejected.
  pub process_item_protocol :
      (obj : Obj) (p : Pool w.Queue W)
      → Crashes obj p ⊎ Retries obj p ⊎ Succeeds obj p ⊎ Rejects obj p
  unfolding process_item
  process_item_protocol (other value) p =
      inr (inr (inr (_, inl (value, refl, refl), refl, refl, refl, refl, refl, refl)))
  process_item_protocol (request_at a) p = by_key a p _ refl

  settle-queue :
      (P : w.Queue → Type 0) (a : ℕ) (k : String) (p : Pool w.Queue W) (exit : Exit W (Option Err))
      → let q = p.workqueue in
        let obj = request_at a in
        P (w.done (w.forget q obj) obj)
        → P (w.done (w.add_rate_limited q obj) obj)
        → P (w.done q obj)
        → P (pool_of (settle w reconcile a k p exit)).workqueue
  unfolding settle
  settle-queue P a k p (returned none t) x y z = x
  settle-queue P a k p (returned (some e) t) x y z = y
  settle-queue P a k p (panicked t) x y z = z

  queue_by_key :
      (P : w.Queue → Type 0) (a : ℕ) (p : Pool w.Queue W) (answer : Key)
      → w.key_of (p.heap a) ≡ answer
      → let q = p.workqueue in
        let obj = request_at a in
        P (w.done (w.forget q obj) obj)
        → P (w.done (w.add_rate_limited q obj) obj)
        → P (w.done q obj)
        → P (pool_of (process_item w reconcile obj p)).workqueue
  unfolding process_item
  queue_by_key P a p (key k) known x y z = rw (processed a k p known) (settle-queue P a k p _ x y z)
  queue_by_key P a p (bad_key e) known x y z = rw (known, process_item) x

  -- What a pass leaves of the queue: the item is forgotten or added again or neither, and then
  -- done.
  pub process_item-queue :
      (P : w.Queue → Type 0) (obj : Obj) (p : Pool w.Queue W)
      → let q = p.workqueue in
        P (w.done (w.forget q obj) obj)
        → P (w.done (w.add_rate_limited q obj) obj)
        → P (w.done q obj)
        → P (pool_of (process_item w reconcile obj p)).workqueue
  unfolding process_item
  process_item-queue P (other value) p x y z = x
  process_item-queue P (request_at a) p x y z = queue_by_key P a p _ refl x y z

  settle-heap :
      (a b : ℕ) (k : String) (p : Pool w.Queue W) (exit : Exit W (Option Err))
      → a ≢ b
      → (pool_of (settle w reconcile a k p exit)).heap b ≡ p.heap b
  unfolding settle
  settle-heap a b k p (returned none t) h = ground arith
  settle-heap a b k p (returned (some e) t) h = ground arith
  settle-heap a b k p (panicked t) h = ground arith

  rejected-heap :
      (a b : ℕ) (p : Pool w.Queue W) (answer : Key)
      → a ≢ b
      → w.key_of (p.heap a) ≡ answer
      → (pool_of (process_item w reconcile (request_at a) p)).heap b ≡ p.heap b
  unfolding process_item
  rejected-heap a b p (key k) h known = rw (processed a k p known) (settle-heap a b k p _ h)
  rejected-heap a b p (bad_key e) h known = rw (known, process_item) refl

  pub process_item-heap :
      (a b : ℕ) (p : Pool w.Queue W)
      → a ≢ b
      → (pool_of (process_item w reconcile (request_at a) p)).heap b ≡ p.heap b
  process_item-heap a b p h = rejected-heap a b p _ h refl

  pub enqueue-heap :
      (a b : ℕ) (p : Pool w.Queue W)
      → b < p.next
      → (enqueue w reconcile (request_at a) p).heap b ≡ p.heap b
  unfolding enqueue
  enqueue-heap a b p h = ground arith

  -- Enqueueing an object that has a key adds a copy of it at a fresh address; neither that nor the
  -- processing of the copy, whatever the reconciler writes, changes the object, or any other that
  -- was there before.
  pub enqueue_isolates :
      (a b : ℕ) (k : String) (p : Pool w.Queue W)
      → b < p.next
      → w.key_of (p.heap a) ≡ key k
      → let q = enqueue w reconcile (request_at a) p in
        (q.queue_calls ≡ added (request_at p.next) ∷ p.queue_calls)
        × (q.heap p.next ≡ p.heap a)
        × ((pool_of (process_item w reconcile (request_at p.next) q)).heap b ≡ p.heap b)
  unfolding enqueue
  enqueue_isolates a b k p hb known = (
    ground arith,
    ground arith,
    process_item-heap p.next b _ (λ e. absurd (omega arith)) ∙ enqueue-heap a b p hb,
  )
