-- ===== src/Worker/Origins.antt =====
-- Where what the worker pool sends comes from: the objects that the event handlers were given.
use k8s_eviction_controller.Prelude.{
  ℕ, ◌<◌, ◌≡◌, refl, sym, ap, ◌∙◌, inl, inr, String, Bool-cases, false, Option, none, some, [], All,
  leb, ◌&&◌, arith,
}
use k8s_eviction_controller.Api.{EvictionRequest, LocalPodReference}
use k8s_eviction_controller.Cluster.{
  Env, Err, Exit, returned, panicked, State, Pod, found, Eviction, evictions, updates, final,
}
use k8s_eviction_controller.Cluster.Frame.{IsFrame}
use k8s_eviction_controller.Eviction.{eviction_of}
use k8s_eviction_controller.Interceptor.Priority.{SortsSlices}
use k8s_eviction_controller.Reconciler.{reconcile_eviction_request}
use k8s_eviction_controller.Reconciler.Frame.{reconcile_kept}
use k8s_eviction_controller.Reconciler.Target.{reconcile-Targets}
use k8s_eviction_controller.Worker.{
  Obj, request_at, other, Key, key, bad_key, Workqueue, Pool, pool_of, write, enqueue, sync_handler,
  settle, process_item,
}
use k8s_eviction_controller.Worker.Protocol.{processed}
use k8s_eviction_controller.Worker.Evictions.{state_of}
use k8s_eviction_controller.Worker.Concurrent.{IsThere, System, Reach}
use k8s_eviction_controller.Worker.Items.{GivesAdded, IsCopy, KeptByPool, Reach-kept}

-- What the documentation of a lister says: it gives the pod of that name in that namespace.
abbrev pub FindsByName : Env → Type 0
FindsByName env =
    (world : env.World) (namespace name : String) (pod : Pod)
    → (env.get_pod world namespace name).1 ≡ found pod
    → (pod.name ≡ name) × (pod.namespace ≡ namespace)

module _ (base : ℕ) (heap : ℕ → EvictionRequest) where
  -- The metadata and the spec are those of an object that stood below `base`.
  abbrev pub IsFrom : EvictionRequest → Type 0
  IsFrom r = (a : ℕ) × (a < base) × (r.metadata ≡ (heap a).metadata) × (r.spec ≡ (heap a).spec)

  -- The eviction is of the pod that such an object refers to, in its namespace.
  abbrev pub IsAskedFor : Eviction → Type 0
  IsAskedFor e =
      (a : ℕ) × (ref : LocalPodReference) × (a < base)
      × ((heap a).spec.target.pod_ref ≡ some ref)
      × (e.name ≡ ref.name)
      × (e.namespace ≡ (heap a).metadata.namespace)

  write-IsFrom :
      (current : ℕ → EvictionRequest) (a : ℕ) (r : EvictionRequest)
      → IsFrom r
      → (b : ℕ) → (leb a b && leb b a ≡ false → IsFrom (current b))
      → IsFrom (write current a r b)
  write-IsFrom current a r from b before = elim (Bool-cases (leb a b && leb b a)) [
    | inl e ↦ rw e from
    | inr e ↦ rw e (before e)
  ]

  -- The request comes from `heap`, and so do the objects that were sent.
  abbrev Sends : {W : Type 0} → State W → Type 0
  Sends s = IsFrom s.request × All IsFrom (updates s.calls)

  Sends-IsFrame : (env : Env) → IsFrame env Sends
  Sends-IsFrame env = record {
    write = λ f s k. k;
    update = λ s (from, sent). (from, (from, sent));
    evict = λ e s k. k;
    now = λ s k. k;
    get_pod = λ namespace name s k. k;
  }

module _ (env : Env) (sorts : SortsSlices env) (finds : FindsByName env) (base : ℕ)
    (heap : ℕ → EvictionRequest) where
  -- The object of a handler comes from `heap`, and so does all that was sent.
  abbrev Traced : State env.World → Type 0
  Traced s = Sends base heap s × All (IsAskedFor base heap) (evictions s.calls)

  evicted-IsAskedFor :
      (s : State env.World)
      → Traced s
      → All (IsAskedFor base heap) (evictions (final (reconcile_eviction_request env s)).calls)
  unfolding eviction_of
  evicted-IsAskedFor s (((a, lt, metadata, spec), sent), before) =
      elim (reconcile-Targets env sorts s) [
        | inl same ↦ rw same before
        | inr (ref, pod, world, e, l, more) ↦
            let (name, namespace) = finds world s.request.metadata.namespace ref.name pod l in
            rw more (
              (
                a,
                ref,
                lt,
                ap (λ x. x.target.pod_ref) (sym spec) ∙ e,
                name,
                namespace ∙ ap (λ x. x.namespace) metadata,
              ),
              before,
            )
      ]

  reconcile-Traced :
      (s : State env.World) → Traced s → Traced (final (reconcile_eviction_request env s))
  reconcile-Traced s traced = (
    (reconcile_kept env (Sends base heap) (Sends-IsFrame base heap env)).run s traced.0,
    evicted-IsAskedFor s traced,
  )

module _ (w : Workqueue) (gives : GivesAdded w) (env : Env) (sorts : SortsSlices env)
    (finds : FindsByName env) where
  open gives use {Contains}

  abbrev reconcile : State env.World → Exit env.World (Option Err)
  reconcile = reconcile_eviction_request env

  -- All objects that are there come from `heap`, and so does all that was sent.
  abbrev Traceable : ℕ → (ℕ → EvictionRequest) → Pool w.Queue env.World → Type 0
  Traceable base heap p =
      ((b : ℕ) → b < p.next → IsFrom base heap (p.heap b))
      × All (IsFrom base heap) (updates p.calls)
      × All (IsAskedFor base heap) (evictions p.calls)

  settle-Traceable :
      (base : ℕ) (heap : ℕ → EvictionRequest) (a : ℕ) (k : String) (p : Pool w.Queue env.World)
      (exit : Exit env.World (Option Err))
      → Traceable base heap p
      → Traced env sorts finds base heap (final exit)
      → Traceable base heap (pool_of (settle w reconcile a k p exit))
  unfolding settle
  settle-Traceable base heap a k p (returned none t) (all, _, _) ((from, sent), asked) =
      (λ b h. write-IsFrom base heap p.heap a t.request from b (λ _. all b h), sent, asked)
  settle-Traceable base heap a k p (returned (some e) t) (all, _, _) ((from, sent), asked) =
      (λ b h. write-IsFrom base heap p.heap a t.request from b (λ _. all b h), sent, asked)
  settle-Traceable base heap a k p (panicked t) (all, _, _) ((from, sent), asked) =
      (λ b h. write-IsFrom base heap p.heap a t.request from b (λ _. all b h), sent, asked)

  item_by_key :
      (base : ℕ) (heap : ℕ → EvictionRequest) (a : ℕ) (p : Pool w.Queue env.World) (answer : Key)
      → w.key_of (p.heap a) ≡ answer
      → a < p.next
      → Traceable base heap p
      → Traceable base heap (pool_of (process_item w reconcile (request_at a) p))
  unfolding process_item sync_handler
  item_by_key base heap a p (key k) known h (all, sent, asked) =
      rw (processed w reconcile a k p known) (
        settle-Traceable base heap a k p _ (all, sent, asked)
          (reconcile-Traced env sorts finds base heap (state_of w env a p)
            ((all a h, sent), asked)))
  item_by_key base heap a p (bad_key e) known h traceable = rw (known, process_item) traceable

  event_by_key :
      (base : ℕ) (heap : ℕ → EvictionRequest) (a : ℕ) (p : Pool w.Queue env.World) (answer : Key)
      → w.key_of (p.heap a) ≡ answer
      → a < p.next
      → Traceable base heap p
      → Traceable base heap (enqueue w reconcile (request_at a) p)
  unfolding enqueue
  event_by_key base heap a p (key k) known h (all, sent, asked) =
      rw (known, enqueue)
        (
          λ b lt.
              write-IsFrom base heap p.heap p.next (p.heap a) (all a h) b
                (λ e. all b (ground arith)),
          sent,
          asked,
        )
  event_by_key base heap a p (bad_key e) known h traceable = rw (known, enqueue) traceable

  Traceable-kept :
      (base : ℕ) (heap : ℕ → EvictionRequest)
      → KeptByPool w gives reconcile base (Traceable base heap)
  unfolding process_item enqueue
  Traceable-kept base heap = record {
    item = λ obj p own traceable. item obj p own traceable;
    event = λ obj p there le traceable. event obj p there traceable;
    queue = λ q p traceable. traceable;
  }
    where
      item :
          (obj : Obj) (p : Pool w.Queue env.World)
          → IsCopy base p.next obj
          → Traceable base heap p
          → Traceable base heap (pool_of (process_item w reconcile obj p))
      item (other value) p own traceable = traceable
      item (request_at a) p (lo, hi) traceable = item_by_key base heap a p _ refl hi traceable

      event :
          (obj : Obj) (p : Pool w.Queue env.World)
          → IsThere obj p.next
          → Traceable base heap p
          → Traceable base heap (enqueue w reconcile obj p)
      event (other value) p there traceable = traceable
      event (request_at a) p there traceable = event_by_key base heap a p _ refl there traceable

  -- From a pool with an empty queue that has sent nothing, in every interleaving of the workers,
  -- the event handlers and the end of the context: each object that was sent in a status update has
  -- the metadata and the spec of an object that was there before, and each eviction that was sent
  -- is of the pod that such an object refers to, in the namespace of that object.
  pub calls_traceable :
      (p : Pool w.Queue env.World) (s : System w reconcile)
      → ((x : Obj) → ¬ Contains p.workqueue x)
      → p.calls ≡ []
      → Reach w reconcile p s
      → All (IsFrom p.next p.heap) (updates s.pool.calls)
        × All (IsAskedFor p.next p.heap) (evictions s.pool.calls)
  calls_traceable p s empty none_sent r =
      let inv =
        Reach-kept w gives reconcile (Traceable p.next p.heap) (Traceable-kept p.next p.heap) empty
          (λ b h. (b, h, refl, refl), rw none_sent tt, rw none_sent tt) r in
      let (all, sent, asked) = inv.good in (sent, asked)
