-- ===== src/Worker/Duplicates.antt =====
-- What the queue gets when one object is enqueued twice.
use k8s_eviction_controller.Prelude.{ℕ, suc, ◌<◌, ◌≡◌, ◌≢◌, String, Option, ◌∷◌, arith}
use k8s_eviction_controller.Cluster.{Err, M}
use k8s_eviction_controller.Worker.{request_at, key, Workqueue, added, Pool, enqueue}

module _ (w : Workqueue) {W : Type 0} (reconcile : M W (Option Err)) where
  -- Enqueueing an object that has a key twice adds two different items, which point to two copies
  -- of it, so that they have the same key; the queue, which compares items, does not merge them.
  pub enqueue_twice :
      (a : ℕ) (k : String) (p : Pool w.Queue W)
      → a < p.next
      → w.key_of (p.heap a) ≡ key k
      → let first = request_at p.next in
        let second = request_at (suc p.next) in
        let q = enqueue w reconcile (request_at a) (enqueue w reconcile (request_at a) p) in
        (q.queue_calls ≡ added second ∷ added first ∷ p.queue_calls)
        × (first ≢ second)
        × (q.heap p.next ≡ p.heap a)
        × (q.heap (suc p.next) ≡ p.heap a)
  unfolding enqueue
  enqueue_twice a k p h known = (ground arith, λ e. ground arith, ground arith, ground arith)
