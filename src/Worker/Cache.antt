-- ===== src/Worker/Cache.antt =====
-- The objects that the event handlers are given, which are those of the informer's cache.
use k8s_eviction_controller.Prelude.{ℕ, ◌<◌, ◌≡◌, refl, ◌∙◌, Option, arith}
use k8s_eviction_controller.Api.{EvictionRequest}
use k8s_eviction_controller.Cluster.{Err, M}
use k8s_eviction_controller.Worker.{
  Obj, request_at, other, Workqueue, Pool, pool_of, enqueue, process_item,
}
use k8s_eviction_controller.Worker.Protocol.{process_item-heap, enqueue-heap}
use k8s_eviction_controller.Worker.Concurrent.{System, Reach}
use k8s_eviction_controller.Worker.Items.{GivesAdded, IsCopy, KeptByPool, Reach-kept}

module _ (w : Workqueue) (gives : GivesAdded w) {W : Type 0} (reconcile : M W (Option Err)) where
  open gives use {Contains}

  -- Below `base` stand the objects of `heap`.
  abbrev Same : ℕ → (ℕ → EvictionRequest) → Pool w.Queue W → Type 0
  Same base heap p = (a : ℕ) → a < base → p.heap a ≡ heap a

  process_item-cache :
      (base : ℕ) (obj : Obj) (p : Pool w.Queue W) (b : ℕ)
      → IsCopy base p.next obj
      → b < base
      → (pool_of (process_item w reconcile obj p)).heap b ≡ p.heap b
  unfolding process_item
  process_item-cache base (other value) p b own h = refl
  process_item-cache base (request_at a) p b (lo, hi) h =
      process_item-heap w reconcile a b p (λ e. absurd (ground arith))

  enqueue-cache :
      (obj : Obj) (p : Pool w.Queue W) (b : ℕ)
      → b < p.next
      → (enqueue w reconcile obj p).heap b ≡ p.heap b
  unfolding enqueue
  enqueue-cache (other value) p b h = refl
  enqueue-cache (request_at a) p b h = enqueue-heap w reconcile a b p h

  Same-kept :
      (base : ℕ) (heap : ℕ → EvictionRequest) → KeptByPool w gives reconcile base (Same base heap)
  Same-kept base heap = record {
    item = λ obj p own same a h. process_item-cache base obj p a own h ∙ same a h;
    event = λ obj p there le same a h. enqueue-cache obj p a (omega arith) ∙ same a h;
    queue = λ q p same. same;
  }

  -- From a pool whose queue is empty, no interleaving of the workers, the event handlers and the
  -- end of the context changes an object that was there before: what the workers write to are
  -- copies.
  pub cache_untouched :
      (p : Pool w.Queue W) (s : System w reconcile) (a : ℕ)
      → ((x : Obj) → ¬ Contains p.workqueue x)
      → Reach w reconcile p s
      → a < p.next
      → s.pool.heap a ≡ p.heap a
  cache_untouched p s a empty r h =
      (Reach-kept w gives reconcile (Same p.next p.heap) (Same-kept p.next p.heap) empty
          (λ b _. refl) r).good
        a h
