-- ===== src/Reconciler/Policy.antt =====
-- The cancellation policy under a reconciliation.
use k8s_eviction_controller.Prelude.{
  ◌≡◌, ◌≢◌, refl, inl, inr, String, ◌==◌, eq_iff, [], arith, if◌then◌else◌,
}
use k8s_eviction_controller.Api.{EvictionRequest}
use k8s_eviction_controller.Api.Constants.{allow}
use k8s_eviction_controller.Cluster.{Env, State, final}
use k8s_eviction_controller.Status.{
  default_policy, upsert_condition, increment_failed_eviction_counter,
}
use k8s_eviction_controller.Eviction.{perform, evict_pod}
use k8s_eviction_controller.Interceptor.{handle, select_class}
use k8s_eviction_controller.Interceptor.Priority.{SortsSlices}
use k8s_eviction_controller.Interceptor.Decision.{
  Decision, select, evict_now, check, wait, act, handle_decides,
}
use k8s_eviction_controller.Reconciler.{
  reconcile_eviction_request, reconcile_pod, ensure_policy, proceed,
}
use k8s_eviction_controller.Reconciler.Safety.{
  MatchesPod, empty-cases, ensure_policy_total, ensure_policy_lem,
}

abbrev pub policy_of : EvictionRequest → String
policy_of r = r.status.eviction_request_cancellation_policy

module _ (env : Env) where
  perform-policy :
      (s : State env.World)
      → policy_of s.request ≢ ""
      → policy_of (final (perform env s)).request ≡ policy_of s.request
  unfolding perform evict_pod upsert_condition increment_failed_eviction_counter
  perform-policy s h = ground (arith, eq_iff (policy_of s.request) "")

  act-policy :
      (d : Decision) (s : State env.World)
      → policy_of s.request ≢ ""
      → policy_of (final (act env d s)).request ≡ policy_of s.request
  unfolding act select_class
  act-policy (select c) s h = refl
  act-policy evict_now s h = perform-policy s h
  act-policy (check seconds heartbeat) s h = ground arith
  act-policy wait s h = refl

module _ (env : Env) (sorts : SortsSlices env) where
  handle-policy :
      (s : State env.World)
      → s.request.spec.interceptors ≢ []
      → policy_of s.request ≢ ""
      → policy_of (final (handle env s)).request ≡ policy_of s.request
  handle-policy s some_left h = rw (handle_decides env sorts s some_left) (act-policy env _ s h)

  proceed-policy :
      (s : State env.World)
      → policy_of s.request ≢ ""
      → policy_of (final (proceed env s)).request ≡ policy_of s.request
  unfolding proceed
  proceed-policy s h = elim (empty-cases s.request.spec.interceptors) [
    | inl e ↦ ground (arith, perform-policy env s h)
    | inr ne ↦ ground (arith, handle-policy s ne h)
  ]

  default_policy-ne :
      (r : EvictionRequest) → (default_policy r.status).eviction_request_cancellation_policy ≢ ""
  unfolding default_policy
  default_policy-ne r = ground (arith, eq_iff (policy_of r) "", eq_iff allow "")

  reconcile_pod-policy :
      (s : State env.World)
      → policy_of (final (reconcile_pod env s)).request
        ≡ (default_policy s.request.status).eviction_request_cancellation_policy
  unfolding reconcile_pod
  reconcile_pod-policy s = ground (
    arith,
    ensure_policy_total env s,
    ensure_policy_lem env s,
    default_policy-ne s.request,
    proceed-policy (final (ensure_policy env s)),
  )

  -- For a pod that matches, the policy at the end is the one at the start, or Allow if that was
  -- empty: a policy that an interceptor has set, such as Forbid, is never overwritten.
  pub reconcile_policy :
      (s : State env.World)
      → MatchesPod env s
      → policy_of (final (reconcile_eviction_request env s)).request
        ≡ (if policy_of s.request == "" then allow else policy_of s.request)
  unfolding reconcile_eviction_request default_policy
  reconcile_policy s (ref, pod, e, l, u) = ground (
    arith,
    eq_iff pod.uid ref.uid,
    reconcile_pod-policy
        (record s { world = (env.get_pod s.world s.request.metadata.namespace ref.name).0 }),
  )
