-- ===== src/Reconciler/Server.antt =====
-- The API server that keeps the object, and the turns of the control loop on it: the informer gives
-- the stored object, and a worker reconciles a copy of it.
use k8s_eviction_controller.Prelude.{
  refl, ap, subst, ℕ, zero, suc, ◌≡◌, ◌≢◌, String, eq_iff, none, some, [], arith,
}
use k8s_eviction_controller.Api.{EvictionRequest, EvictionRequestStatus}
use k8s_eviction_controller.Cluster.{Env, Pod, Eviction, State, found, final, evictions, result}
use k8s_eviction_controller.Reconciler.{reconcile_eviction_request, reconcile_pod}

-- `r` after a write to its status: the status is replaced, and the version is another one.
abbrev pub IsWrite : EvictionRequest → EvictionRequestStatus → EvictionRequest → Type 0
IsWrite r status r' =
    (version : ℕ) × (r'
      ≡ record r { metadata = record r.metadata { resource_version = version }; status = status })

-- What is documented of the status subresource and of the informer's cache, of a server that does
-- not fail and an object that only the controller writes to: a status update with the current
-- metadata is taken and replaces the status, one that is refused changes nothing, and no other call
-- writes to the object. The lister gives a pod until it is evicted.
pub record Serves (env : Env) : Type 1 where
  pub stored : env.World → EvictionRequest
  pub Lists : env.World → Pod → Type 0
  pub get_pod-Lists :
      (w : env.World) (pod : Pod)
      → Lists w pod
      → (env.get_pod w pod.namespace pod.name).1 ≡ found pod
  pub update-current :
      (w : env.World) (r : EvictionRequest)
      → r.metadata ≡ (stored w).metadata
      → ((env.update_status w r).1 ≡ none)
        × IsWrite (stored w) r.status (stored (env.update_status w r).0)
  pub update-refused :
      (w : env.World) (r : EvictionRequest)
      → (env.update_status w r).1 ≢ none
      → stored (env.update_status w r).0 ≡ stored w
  pub get_pod-stored : (w : env.World) (a b : String) → stored (env.get_pod w a b).0 ≡ stored w
  pub now-stored : (w : env.World) → stored (env.now w).0 ≡ stored w
  pub evict-stored : (w : env.World) (e : Eviction) → stored (env.evict w e).0 ≡ stored w
  pub update-Lists :
      (w : env.World) (r : EvictionRequest) (pod : Pod)
      → Lists w pod
      → Lists (env.update_status w r).0 pod
  pub get_pod-keeps :
      (w : env.World) (a b : String) (pod : Pod) → Lists w pod → Lists (env.get_pod w a b).0 pod
  pub now-Lists : (w : env.World) (pod : Pod) → Lists w pod → Lists (env.now w).0 pod

module _ (env : Env) (serves : Serves env) where
  open serves use {stored, Lists}

  -- A worker is about to reconcile a copy of the stored object.
  abbrev pub informed : env.World → State env.World
  informed w = record { world = w; request = stored w; calls = [] }

  abbrev pub turn : env.World → State env.World
  turn w = final (reconcile_eviction_request env (informed w))

  -- A turn that returns nil and evicts nothing.
  abbrev pub IsQuiet : env.World → Type 0
  IsQuiet w =
      (evictions (turn w).calls ≡ [])
      × (result (reconcile_eviction_request env (informed w)) ≡ some none)

  -- The world after `n` turns.
  unfoldable pub turns : ℕ → env.World → env.World
  turns zero w = w
  turns (suc n) w = turns n (turn w).world

  -- The stored object refers to a pod that the lister gives.
  pub record RefersTo (w : env.World) (pod : Pod) : Type 0 where
    pub reference :
        (stored w).spec.target.pod_ref ≡ some (record { name = pod.name; uid = pod.uid })
    pub namespace : (stored w).metadata.namespace ≡ pod.namespace
    pub listed : Lists w pod

  -- The world after the first look-up of a turn.
  abbrev pub looked_up : env.World → Pod → env.World
  looked_up w pod = (env.get_pod w (stored w).metadata.namespace pod.name).0

  -- A turn on such an object gets past the test of the UID.
  pub turn_goes_on :
      (w : env.World) (pod : Pod)
      → RefersTo w pod
      → reconcile_eviction_request env (informed w)
        ≡ reconcile_pod env (record (informed w) { world = looked_up w pod })
  unfolding reconcile_eviction_request
  turn_goes_on w pod refers = ground (
    arith,
    refers.reference,
    refers.namespace,
    eq_iff pod.uid pod.uid,
    serves.get_pod-Lists w pod refers.listed,
  )

  -- The object with another status, sent in a world that stores the same object, is stored.
  pub stores :
      (w v : env.World) (r : EvictionRequest) (status : EvictionRequestStatus)
      → stored v ≡ stored w
      → r ≡ record (stored w) { status = status }
      → ((env.update_status v r).1 ≡ none)
        × IsWrite (stored w) status (stored (env.update_status v r).0)
  stores w v r status same e =
      let (ok, write) = serves.update-current v r (rw (e, same) refl) in
      (
        ok,
        let of_r : IsWrite (stored w) r.status (stored (env.update_status v r).0) =
              rw same at write in
            subst (λ q. IsWrite (stored w) q (stored (env.update_status v r).0))
              (ap (λ q. q.status) e) of_r,
      )

module _ (env : Env) (serves : Serves env) (pod : Pod) where
  open serves use {stored}

  -- The state after the first look-up of a turn.
  abbrev pub at_pod : env.World → State env.World
  at_pod w = record (informed env serves w) { world = looked_up env serves w pod }

  pub at_pod-stored : (w : env.World) → stored (at_pod w).world ≡ stored w
  at_pod-stored w = serves.get_pod-stored w (stored w).metadata.namespace pod.name
