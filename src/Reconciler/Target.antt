-- ===== src/Reconciler/Target.antt =====
-- Which pod a reconciliation evicts, and how often.
use k8s_eviction_controller.Prelude.{
  ◌≡◌, ◌≢◌, refl, sym, ap, ◌∙◌, ◌⊎◌, inl, inr, Option, none, some, List, [], ◌∷◌, arith,
}
use k8s_eviction_controller.Api.{LocalPodReference}
use k8s_eviction_controller.Cluster.{
  Env, Err, State, Exit, Pod, found, returned, panicked, final, evictions, M, pure, case_nil,
  case_empty,
}
use k8s_eviction_controller.Eviction.{eviction_of, perform}
use k8s_eviction_controller.Eviction.Outcomes.{perform_outcome}
use k8s_eviction_controller.Interceptor.{handle}
use k8s_eviction_controller.Interceptor.Priority.{SortsSlices}
use k8s_eviction_controller.Interceptor.Decision.{
  Decision, select, evict_now, check, wait, act, handle_decides,
}
use k8s_eviction_controller.Interceptor.Effects.{act-evictions}
use k8s_eviction_controller.Reconciler.{
  reconcile_pod, reconcile_eviction_request, ensure_policy, proceed,
}
use k8s_eviction_controller.Reconciler.Safety.{reconcile_rule, empty-cases}

case_empty-cons :
    {W A B : Type 0} (xs : List B) (m k : M W A) (s : State W) → xs ≢ [] → case_empty xs m k s ≡ k s
case_empty-cons [] m k s h = absurd (h refl)
case_empty-cons (x ∷ xs) m k s h = refl

module _ (env : Env) where
  -- `t` has sent no more evictions than `s`; or one more, of a pod that the lister gave for the
  -- reference of the request, in its namespace.
  abbrev pub Targets : State env.World → State env.World → Type 0
  Targets s t =
      (evictions t.calls ≡ evictions s.calls)
      ⊎ ((ref : LocalPodReference) × (pod : Pod) × (world : env.World)
          × (s.request.spec.target.pod_ref ≡ some ref)
          × ((env.get_pod world s.request.metadata.namespace ref.name).1 ≡ found pod)
          × (evictions t.calls ≡ eviction_of pod ∷ evictions s.calls))

  -- Nothing was evicted, and the request names the same pod.
  abbrev SameTarget : State env.World → State env.World → Type 0
  SameTarget s t =
      (evictions t.calls ≡ evictions s.calls)
      × (t.request.spec ≡ s.request.spec)
      × (t.request.metadata ≡ s.request.metadata)

  Targets-from : (s t u : State env.World) → SameTarget s t → Targets t u → Targets s u
  Targets-from s t u (same, spec, metadata) (inl e) = inl (e ∙ same)
  Targets-from s t u (same, spec, metadata) (inr (ref, pod, world, e, l, more)) = inr (
    ref,
    pod,
    world,
    ap (λ x. x.target.pod_ref) (sym spec) ∙ e,
    ap (λ x. (env.get_pod world x.namespace ref.name).1) (sym metadata) ∙ l,
    more ∙ ap (λ x. eviction_of pod ∷ x) same,
  )

  ensure_policy-SameTarget : (s : State env.World) → SameTarget s (final (ensure_policy env s))
  unfolding ensure_policy
  ensure_policy-SameTarget s = ground arith

  perform-Targets : (s : State env.World) → Targets s (final (perform env s))
  perform-Targets s = elim (perform_outcome env s) [
    | inl (e, r, same) ↦ inl same
    | inr (inl (ref, err, e, l, r, t)) ↦ inl (ap (λ z. evictions z.calls) t)
    | inr (inr (ref, pod, e, l, r, more)) ↦ inr (ref, pod, _, e, l, more)
  ]

  act-Targets : (d : Decision) (s : State env.World) → Targets s (final (act env d s))
  unfolding act
  act-Targets evict_now s = perform-Targets s
  act-Targets (select c) s = inl (act-evictions env (select c) s (λ e. cc))
  act-Targets (check seconds heartbeat) s =
      inl (act-evictions env (check seconds heartbeat) s (λ e. cc))
  act-Targets wait s = inl (act-evictions env wait s (λ e. cc))

  module _ (sorts : SortsSlices env) where
    proceed-Targets : (s : State env.World) → Targets s (final (proceed env s))
    unfolding proceed
    proceed-Targets s = elim (empty-cases s.request.spec.interceptors) [
      | inl e ↦ simp e (perform-Targets s)
      | inr ne ↦
          rw (case_empty-cons s.request.spec.interceptors (perform env) (handle env) s ne)
            (rw (handle_decides env sorts s ne) (act-Targets _ s))
    ]

    after_policy-Targets :
        (s : State env.World) (exit : Exit env.World (Option Err))
        → SameTarget s (final exit)
        → Targets s (
            final (elim exit as (λ _. Exit env.World (Option Err)) [
              | returned refused t ↦ case_nil refused (proceed env) (λ e. pure (some e)) t
              | panicked t ↦ panicked t
            ]))
    after_policy-Targets s (returned none t) same =
        Targets-from s t (final (proceed env t)) same (proceed-Targets t)
    after_policy-Targets s (returned (some e) t) (sent, spec, metadata) = inl sent
    after_policy-Targets s (panicked t) (sent, spec, metadata) = inl sent

    reconcile_pod-Targets : (s : State env.World) → Targets s (final (reconcile_pod env s))
    unfolding reconcile_pod
    reconcile_pod-Targets s =
        after_policy-Targets s (ensure_policy env s) (ensure_policy-SameTarget s)

    -- A reconciliation sends at most one eviction, of a pod that the lister gave for the reference
    -- of the request, in its namespace.
    pub reconcile-Targets :
        (s : State env.World) → Targets s (final (reconcile_eviction_request env s))
    reconcile-Targets s =
        reconcile_rule env s (λ exit. Targets s (final exit)) (λ _. inl refl) (λ _ _. inl refl)
          λ ref pod e l u. reconcile_pod-Targets _
