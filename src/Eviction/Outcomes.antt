-- ===== src/Eviction/Outcomes.antt =====
-- What `Perform` sends and returns, on any answers.
use k8s_eviction_controller.Prelude.{
  ◌≡◌, refl, ◌⊎◌, inl, inr, Option-cases, false, none, some, ◌∷◌, arith, if◌then◌else◌,
}
use mathlib.Core.Option
use k8s_eviction_controller.Api.{LocalPodReference}
use k8s_eviction_controller.Cluster.{
  Env, Err, State, Lookup, Pod, found, failed, panics, result, final, evictions, message, wrapped,
}
use k8s_eviction_controller.Status.{upsert_condition, increment_failed_eviction_counter}
use k8s_eviction_controller.Eviction.{eviction_of, evict_pod, perform}

pub Lookup-cases : (l : Lookup) → ((pod : Pod) × (l ≡ found pod)) ⊎ ((e : Err) × (l ≡ failed e))
Lookup-cases (found pod) = inl (pod, refl)
Lookup-cases (failed e) = inr (e, refl)

module _ (env : Env) where
  evict_pod-evictions :
      (pod : Pod) (s : State env.World)
      → evictions (final (evict_pod env pod s)).calls ≡ eviction_of pod ∷ evictions s.calls
  unfolding evict_pod upsert_condition increment_failed_eviction_counter
  evict_pod-evictions pod s = ground arith

  pub perform_total : (s : State env.World) → panics (perform env s) ≡ false
  unfolding perform evict_pod upsert_condition increment_failed_eviction_counter
  perform_total s = ground arith

  evict_pod-result :
      (pod : Pod) (s : State env.World)
      → result (evict_pod env pod s)
        ≡ some (Option.map (wrapped "failed to evict pod") (env.evict s.world (eviction_of pod)).1)
  unfolding evict_pod upsert_condition increment_failed_eviction_counter
  evict_pod-result pod s = ground arith

  abbrev pub answer_of : State env.World → LocalPodReference → env.World × Lookup
  answer_of s ref = env.get_pod s.world s.request.metadata.namespace ref.name

  -- Without a reference: an error, and no eviction. With one, the lister is asked for it in the
  -- namespace of the request; if it fails, nothing is sent, and its error is returned wrapped, or
  -- nil if it says that there is no such pod. If it gives a pod, one eviction of that pod is sent,
  -- with no precondition, and its error is returned, wrapped. The answers to the status updates
  -- never show in the result.
  pub perform_outcome :
      (s : State env.World)
      → let t = final (perform env s) in
        ((s.request.spec.target.pod_ref ≡ none)
          × (result (perform env s) ≡ some (some (message "pod reference cannot be nil")))
          × (evictions t.calls ≡ evictions s.calls))
        ⊎ ((ref : LocalPodReference) × (e : Err) × (s.request.spec.target.pod_ref ≡ some ref)
            × ((answer_of s ref).1 ≡ failed e)
            × (result (perform env s)
                ≡ some (if env.is_not_found e then none else some (wrapped "failed to get pod" e)))
            × (t ≡ record s { world = (answer_of s ref).0 }))
        ⊎ ((ref : LocalPodReference) × (pod : Pod) × (s.request.spec.target.pod_ref ≡ some ref)
            × ((answer_of s ref).1 ≡ found pod)
            × (result (perform env s)
                ≡ some (
                    Option.map
                      (wrapped "failed to evict pod")
                      (env.evict (answer_of s ref).0 (eviction_of pod)).1))
            × (evictions t.calls ≡ eviction_of pod ∷ evictions s.calls))
  unfolding perform upsert_condition
  perform_outcome s = elim (Option-cases s.request.spec.target.pod_ref) [
    | inl e ↦ inl (e, rw (e, perform) refl, rw (e, perform) refl)
    | inr (ref, e) ↦ elim (Lookup-cases (answer_of s ref).1) [
      | inl (pod, l) ↦ inr (
          inr (
            ref,
            pod,
            e,
            l,
            rw (e, perform) (rw l (evict_pod-result pod _)),
            rw (e, perform) (rw l (evict_pod-evictions pod _)),
          ))
      | inr (err, l) ↦ inr (inl (ref, err, e, l, ground arith, ground arith))
    ]
  ]
