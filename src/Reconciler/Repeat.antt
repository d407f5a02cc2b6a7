-- ===== src/Reconciler/Repeat.antt =====
-- Requests without interceptors, and what becomes of the versions of an object that is sent twice.
use mathlib.Core.Option
use k8s_eviction_controller.Prelude.{
  ◌≡◌, ◌≢◌, refl, String, eq_iff, Option, none, some, [], ◌∷◌, arith,
}
use k8s_eviction_controller.Api.Constants.{
  condition_type_evicted, condition_true, reason_eviction_succeeded,
}
use k8s_eviction_controller.Api.{EvictionRequest, ObjectMeta, LocalPodReference}
use k8s_eviction_controller.Cluster.{
  Env, Err, wrapped, State, Eviction, updated, evicted, Pod, Lookup, found, returned, final, result,
  evictions,
}
use k8s_eviction_controller.Status.{upsert_condition, increment_failed_eviction_counter}
use k8s_eviction_controller.Eviction.{perform, evict_pod, eviction_of}
use k8s_eviction_controller.Reconciler.{
  reconcile_eviction_request, reconcile_pod, ensure_policy, proceed,
}
use k8s_eviction_controller.Reconciler.Safety.{answer_of}

module _ (env : Env) (s : State env.World) where
  -- The second look-up, which `Perform` makes.
  abbrev pub second_answer : LocalPodReference → env.World × Lookup
  second_answer ref = env.get_pod (answer_of env s ref).0 s.request.metadata.namespace ref.name

  -- A request with a policy and without interceptors: the pod of the second look-up is evicted,
  -- whatever its UID is, and whether or not the request has requesters; the refusal of the eviction
  -- is returned.
  pub reconcile_evicts_second :
      (ref : LocalPodReference) (pod other : Pod)
      → s.request.spec.target.pod_ref ≡ some ref
      → s.request.spec.interceptors ≡ []
      → s.request.status.eviction_request_cancellation_policy ≢ ""
      → (answer_of env s ref).1 ≡ found pod
      → pod.uid ≡ ref.uid
      → (second_answer ref).1 ≡ found other
      → (evictions (final (reconcile_eviction_request env s)).calls
          ≡ eviction_of other ∷ evictions s.calls)
        × (result (reconcile_eviction_request env s)
            ≡ some (
                Option.map
                  (wrapped "failed to evict pod")
                  (env.evict (second_answer ref).0 (eviction_of other)).1))
  unfolding reconcile_eviction_request reconcile_pod ensure_policy proceed perform evict_pod
      upsert_condition increment_failed_eviction_counter
  reconcile_evicts_second ref pod other e none_left p l u l' = (
    ground (
      arith,
      eq_iff pod.uid ref.uid,
      eq_iff s.request.status.eviction_request_cancellation_policy "",
    ),
    ground (
      arith,
      eq_iff pod.uid ref.uid,
      eq_iff s.request.status.eviction_request_cancellation_policy "",
    ),
  )

-- Optimistic concurrency, as the API server documents it: a write makes the version that it was
-- sent stale, a stale version stays so, and a write that carries one is refused.
pub record HasVersions (env : Env) : Type 1 where
  pub IsStale : env.World → ObjectMeta → Type 0
  pub after_write :
      (w : env.World) (r : EvictionRequest)
      → (env.update_status w r).1 ≡ none
      → IsStale (env.update_status w r).0 r.metadata
  pub refused :
      (w : env.World) (r : EvictionRequest)
      → IsStale w r.metadata
      → (env.update_status w r).1 ≢ none
  pub update-stale :
      (w : env.World) (r : EvictionRequest) (m : ObjectMeta)
      → IsStale w m
      → IsStale (env.update_status w r).0 m
  pub get_pod-stale :
      (w : env.World) (m : ObjectMeta) (a b : String)
      → IsStale w m
      → IsStale (env.get_pod w a b).0 m
  pub evict-stale :
      (w : env.World) (m : ObjectMeta) (e : Eviction) → IsStale w m → IsStale (env.evict w e).0 m
  pub now-stale : (w : env.World) (m : ObjectMeta) → IsStale w m → IsStale (env.now w).0 m

module _ (env : Env) (versions : HasVersions env) where
  open versions use {IsStale, after_write, refused, get_pod-stale, evict-stale, now-stale}

  pub answered : (o : Option Err) → o ≢ none → (e : Err) × (o ≡ some e)
  answered none h = absurd (h refl)
  answered (some e) h = (e, refl)

  -- With a stale object the eviction is reported to nobody: the update is refused, and nil is
  -- returned.
  perform_stale :
      (s : State env.World) (ref : LocalPodReference) (pod : Pod)
      → IsStale s.world s.request.metadata
      → s.request.spec.target.pod_ref ≡ some ref
      → (env.get_pod s.world s.request.metadata.namespace ref.name).1 ≡ found pod
      → (env.evict
          (env.get_pod s.world s.request.metadata.namespace ref.name).0
          (eviction_of pod)).1
        ≡ none
      → let t = final (perform env s) in
        (e : Err) × (result (perform env s) ≡ some none)
        × (t.calls ≡ updated t.request (some e) ∷ evicted (eviction_of pod) none ∷ s.calls)
  unfolding perform evict_pod upsert_condition
  perform_stale s ref pod stale e l granted =
      let looked =
        get_pod-stale s.world s.request.metadata s.request.metadata.namespace ref.name stale in
      let sent = evict-stale _ s.request.metadata (eviction_of pod) looked in
      let (err, no_success) =
        answered _ (refused _ reported.request (now-stale _ s.request.metadata sent)) in
      (err, ground arith, ground (arith, no_success))
    where
      granted_state : State env.World
      granted_state = record s {
        world =
            (env.evict (env.get_pod s.world s.request.metadata.namespace ref.name).0
              (eviction_of pod)).0;
        calls = evicted (eviction_of pod) none ∷ s.calls;
      }

      reported : State env.World
      reported = final (
          upsert_condition env condition_type_evicted condition_true reason_eviction_succeeded
            "Pod evicted successfully" granted_state)

  -- Storing the policy makes the object in memory stale.
  pub ensure_policy_stores :
      (s : State env.World)
      → let u = final (ensure_policy env s) in
        s.request.status.eviction_request_cancellation_policy ≡ ""
        → (env.update_status s.world u.request).1 ≡ none
        → (ensure_policy env s ≡ returned none u)
          × (u.calls ≡ updated u.request none ∷ s.calls)
          × (u.request.spec ≡ s.request.spec)
          × (u.request.metadata ≡ s.request.metadata)
          × IsStale u.world u.request.metadata
  unfolding ensure_policy
  ensure_policy_stores s p ok = (
    ground (arith, eq_iff s.request.status.eviction_request_cancellation_policy ""),
    ground (arith, eq_iff s.request.status.eviction_request_cancellation_policy ""),
    ground (arith, eq_iff s.request.status.eviction_request_cancellation_policy ""),
    ground (arith, eq_iff s.request.status.eviction_request_cancellation_policy ""),
    let test = (eq_iff s.request.status.eviction_request_cancellation_policy "").1 p in
        rw test (after_write s.world _ (rw test at ok)),
  )

  -- A request with no policy and no interceptors whose policy is stored: the pod is evicted, the
  -- update that reports the eviction is refused for its version, and nil is returned, so the item
  -- is not tried again.
  pub eviction_not_reported :
      (s : State env.World) (ref : LocalPodReference) (pod other : Pod)
      → let stored = final (ensure_policy env (record s { world = (answer_of env s ref).0 })) in
        let second = env.get_pod stored.world s.request.metadata.namespace ref.name in
        s.request.spec.target.pod_ref ≡ some ref
        → s.request.spec.interceptors ≡ []
        → s.request.status.eviction_request_cancellation_policy ≡ ""
        → (answer_of env s ref).1 ≡ found pod
        → pod.uid ≡ ref.uid
        → (env.update_status (answer_of env s ref).0 stored.request).1 ≡ none
        → second.1 ≡ found other
        → (env.evict second.0 (eviction_of other)).1 ≡ none
        → let t = final (reconcile_eviction_request env s) in
          (e : Err) × (result (reconcile_eviction_request env s) ≡ some none)
          × (t.calls
              ≡ updated t.request (some e)
                ∷ evicted (eviction_of other) none
                ∷ updated stored.request none
                ∷ s.calls)
  unfolding reconcile_eviction_request reconcile_pod proceed
  eviction_not_reported s ref pod other e none_left p l u ok l' granted =
      let before : State env.World = record s { world = (answer_of env s ref).0 } in
      let stored = final (ensure_policy env before) in
      let (stores, sent, same_spec, same_metadata, stale) = ensure_policy_stores before p ok in
      let goes_on : reconcile_eviction_request env s ≡ perform env stored =
        ground (arith, eq_iff pod.uid ref.uid) in
      rw (goes_on, ← sent)
        (perform_stale stored ref other stale (ground arith) (rw same_metadata l')
          (rw same_metadata granted))
