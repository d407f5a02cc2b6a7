-- ===== src/Reconciler/Safety.antt =====
-- What one reconciliation may do, on any answers of the cluster.
use k8s_eviction_controller.Prelude.{
  All, ◌≡◌, ◌≢◌, ◌↔◌, refl, ◌⊎◌, inl, inr, Option-cases, Bool-cases, true, false, Option, none,
  some, List, [], ◌∷◌, ◌==◌, eq_iff, arith,
}
use k8s_eviction_controller.Api.{Interceptor, EvictionRequest, LocalPodReference}
use k8s_eviction_controller.Cluster.{
  Env, Err, State, Exit, Pod, Lookup, found, returned, panicked, panics, final, evictions, updates,
}
use k8s_eviction_controller.Status.{default_policy}
use k8s_eviction_controller.Eviction.Outcomes.{Lookup-cases, perform_total}
use k8s_eviction_controller.Interceptor.Priority.{SortsSlices}
use k8s_eviction_controller.Interceptor.Effects.{IsExhausted, handle_total, handle-evictions}
use k8s_eviction_controller.Cluster.Frame.{IsFrame}
use k8s_eviction_controller.Reconciler.Frame.{reconcile_kept}
use k8s_eviction_controller.Reconciler.{
  reconcile_pod, reconcile_eviction_request, ensure_policy, proceed,
}

or_else_right : {A B : Type 0} → A ⊎ B → ¬ A → B
or_else_right (inl a) h = absurd (h a)
or_else_right (inr b) h = b

pub empty-cases : (xs : List Interceptor) → (xs ≡ []) ⊎ (xs ≢ [])
empty-cases [] = inl refl
empty-cases (x ∷ xs) = inr (λ e. cc)

module _ (env : Env) where
  pub ensure_policy_total : (s : State env.World) → panics (ensure_policy env s) ≡ false
  unfolding ensure_policy
  ensure_policy_total s = ground arith

  -- The policy alone changes, and no pod is evicted.
  pub ensure_policy_lem :
      (s : State env.World)
      → let u = final (ensure_policy env s) in
        (evictions u.calls ≡ evictions s.calls)
        × (u.request.spec ≡ s.request.spec)
        × (u.request.status ≡ default_policy s.request.status)
  unfolding ensure_policy default_policy
  ensure_policy_lem s = ground arith

module _ (env : Env) (sorts : SortsSlices env) where
  proceed_total : (s : State env.World) → panics (proceed env s) ≡ false
  unfolding proceed
  proceed_total s = ground (arith, perform_total env s, handle_total env sorts s)

  proceed-evictions :
      (s : State env.World)
      → (evictions (final (proceed env s)).calls ≡ evictions s.calls) ⊎ IsExhausted env s.request
  unfolding proceed
  proceed-evictions s = elim (empty-cases s.request.spec.interceptors) [
    | inl e ↦ inr (inl e)
    | inr ne ↦ ground (arith, handle-evictions env sorts s ne)
  ]

  reconcile_pod_total : (s : State env.World) → panics (reconcile_pod env s) ≡ false
  unfolding reconcile_pod
  reconcile_pod_total s =
      ground (arith, ensure_policy_total env s, proceed_total (final (ensure_policy env s)))

  reconcile_pod-evictions :
      (s : State env.World)
      → (evictions (final (reconcile_pod env s)).calls ≡ evictions s.calls)
        ⊎ IsExhausted env s.request
  unfolding reconcile_pod default_policy
  reconcile_pod-evictions s = ground (
    arith,
    ensure_policy_total env s,
    ensure_policy_lem env s,
    proceed-evictions (final (ensure_policy env s)),
  )

module _ (env : Env) (s : State env.World) where
  abbrev pub answer_of : LocalPodReference → env.World × Lookup
  answer_of ref = env.get_pod s.world s.request.metadata.namespace ref.name

  -- The lister knows a pod under the name of the reference, and its UID is that of the reference.
  abbrev pub MatchesPod : Type 0
  MatchesPod =
      (ref : LocalPodReference) × (pod : Pod) × (s.request.spec.target.pod_ref ≡ some ref)
      × ((answer_of ref).1 ≡ found pod)
      × (pod.uid ≡ ref.uid)

  -- The three ways through a reconciliation: without a reference; stopped after the look-up; and on
  -- to the policy, with the pod whose UID is that of the reference.
  pub reconcile_rule :
      (P : Exit env.World (Option Err) → Type 0)
      → (s.request.spec.target.pod_ref ≡ none → P (panicked s))
      → ((r : Option Err) (w : env.World) → P (returned r (record s { world = w })))
      → ((ref : LocalPodReference) (pod : Pod)
          → s.request.spec.target.pod_ref ≡ some ref
          → (answer_of ref).1 ≡ found pod
          → pod.uid ≡ ref.uid
          → P (reconcile_pod env (record s { world = (answer_of ref).0 })))
      → P (reconcile_eviction_request env s)
  unfolding reconcile_eviction_request
  reconcile_rule P missing stopped same = elim (Option-cases s.request.spec.target.pod_ref) [
    | inl e ↦ simp e (missing e)
    | inr (ref, e) ↦ simp e (elim (Lookup-cases (answer_of ref).1) [
      | inl (pod, l) ↦ rw l (elim (Bool-cases (pod.uid == ref.uid)) [
        | inl u ↦ rw u (same ref pod e l ((eq_iff _ _).0 u))
        | inr u ↦ rw u (stopped _ _)
      ])
      | inr (err, l) ↦ rw l (elim (Bool-cases (env.is_not_found err)) [
        | inl n ↦ rw n (stopped _ _)
        | inr n ↦ rw n (stopped _ _)
      ])
    ])
  ]

module _ (env : Env) (sorts : SortsSlices env) (s : State env.World) where
  -- A reconciliation panics exactly when the request names no pod.
  pub reconcile_panics_iff :
      (panics (reconcile_eviction_request env s) ≡ true) ↔ (s.request.spec.target.pod_ref ≡ none)
  unfolding reconcile_eviction_request
  reconcile_panics_iff = grind (arith, reconcile_pod_total env sorts)

  -- If a reconciliation sends an eviction, then at its start the lister knew a pod under the name
  -- and with the UID of the reference; and either the spec listed no interceptors, or the active one
  -- was marked as completed and, in the order of the interceptors by falling priority, the first
  -- entry of its class was the last of all, or its class was not listed.
  pub reconcile_evicts_last :
      evictions (final (reconcile_eviction_request env s)).calls ≢ evictions s.calls
      → IsExhausted env s.request × MatchesPod env s
  reconcile_evicts_last =
      reconcile_rule env s
        (λ exit.
          evictions (final exit).calls ≢ evictions s.calls
          → IsExhausted env s.request × MatchesPod env s)
        (λ _ h. absurd (h refl)) (λ _ _ h. absurd (h refl))
        λ ref pod e l u h.
          (or_else_right (reconcile_pod-evictions env sorts _) h, (ref, pod, e, l, u))

-- The object keeps the metadata and the spec of `r`, and so does every object that was sent.
abbrev pub Keeps : {W : Type 0} → EvictionRequest → State W → Type 0
Keeps r s =
    (s.request.metadata ≡ r.metadata)
    × (s.request.spec ≡ r.spec)
    × All (λ (u : EvictionRequest). (u.metadata ≡ r.metadata) × (u.spec ≡ r.spec)) (updates s.calls)

module _ (env : Env) (r : EvictionRequest) where
  Keeps-IsFrame : IsFrame env (Keeps r)
  Keeps-IsFrame = record {
    write = λ f s k. k;
    update = λ s (m, sp, sent). (m, sp, ((m, sp), sent));
    evict = λ e s k. k;
    now = λ s k. k;
    get_pod = λ namespace name s k. k;
  }

  -- If the object and every object sent so far have the metadata and the spec of `r`, then so have
  -- the object and every object sent after a reconciliation.
  pub reconcile-Keeps :
      (s : State env.World) → Keeps r s → Keeps r (final (reconcile_eviction_request env s))
  reconcile-Keeps = (reconcile_kept env (Keeps r) Keeps-IsFrame).run
