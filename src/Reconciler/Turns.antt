-- ===== src/Reconciler/Turns.antt =====
-- Turn after turn of the control loop on a request whose active interceptor has completed, while
-- nobody but the controller writes to it.
use mathlib.Core.List.Perm
use k8s_eviction_controller.Prelude.{
  ap, false, ℕ, zero, suc, ◌<◌, ◌≡◌, ◌≢◌, refl, sym, ◌∙◌, ap, inl, inr, String, eq_iff,
  Option-cases, none, some, List, [], ◌∷◌, length, length-Perm, arith,
}
use k8s_eviction_controller.Api.{Interceptor}
use k8s_eviction_controller.Cluster.{Env, Pod, State, found, final, evictions, panics}
use k8s_eviction_controller.Eviction.{perform, eviction_of, evict_pod}
use k8s_eviction_controller.Status.{upsert_condition, increment_failed_eviction_counter}
use k8s_eviction_controller.Interceptor.{select_class, sort_interceptors_by_priority, handle}
use k8s_eviction_controller.Interceptor.Index.{successor}
use k8s_eviction_controller.Interceptor.Priority.{SortsSlices, sort-perm}
use k8s_eviction_controller.Interceptor.Decision.{after_completion, act, handle_decides}
use k8s_eviction_controller.Interceptor.Selection.{decide_completed}
use k8s_eviction_controller.Interceptor.Drain.{
  HasClasses, IsCompleted, remaining, remaining-lt, remaining-last, remaining-successor,
  successor-mem, sorted-distinct,
}
use k8s_eviction_controller.Reconciler.{
  reconcile_eviction_request, reconcile_pod, ensure_policy, proceed,
}
use k8s_eviction_controller.Reconciler.Policy.{policy_of}
use k8s_eviction_controller.Eviction.Outcomes.{perform_total}
use k8s_eviction_controller.Reconciler.Server.{
  IsQuiet, IsWrite, Serves, RefersTo, informed, looked_up, at_pod, at_pod-stored, stores, turn,
  turns, turn_goes_on,
}

module _ (env : Env) where
  -- With a policy and with interceptors, what follows the look-up is `Handle`.
  pub reconcile_pod-handle :
      (s : State env.World)
      → policy_of s.request ≢ ""
      → s.request.spec.interceptors ≢ []
      → reconcile_pod env s ≡ handle env s
  unfolding reconcile_pod ensure_policy proceed
  reconcile_pod-handle s p h = ground (arith, eq_iff (policy_of s.request) "")

  perform-evicts :
      (s : State env.World) (pod : Pod)
      → s.request.spec.target.pod_ref ≡ some (record { name = pod.name; uid = pod.uid })
      → (env.get_pod s.world s.request.metadata.namespace pod.name).1 ≡ found pod
      → evictions (final (perform env s)).calls ≡ eviction_of pod ∷ evictions s.calls
  unfolding perform evict_pod upsert_condition increment_failed_eviction_counter
  perform-evicts s pod e l = ground arith

-- What the turns keep true of the stored object, with the class that is active.
module _ (env : Env) (sorts : SortsSlices env) (serves : Serves env) (pod : Pod) where
  open serves use {stored}

  -- The pod is there, the policy is set, and the interceptor `c` is active and has completed.
  pub record IsHandedOver (w : env.World) (c : String) : Type 0 where
    pub refers : RefersTo env serves w pod
    pub policy : policy_of (stored w) ≢ ""
    pub completed : IsCompleted (stored w) c
    pub classes : HasClasses (stored w).spec.interceptors

  abbrev sorted : env.World → List Interceptor
  sorted w = sort_interceptors_by_priority env (stored w).spec.interceptors

  -- Such a turn carries out the decision on the stored object.
  turn_decides :
      (w : env.World) (c : String)
      → IsHandedOver w c
      → reconcile_eviction_request env (informed env serves w)
        ≡ act env (after_completion (successor (sorted w) c)) (at_pod env serves pod w)
  turn_decides w c h =
      turn_goes_on env serves w pod h.refers
      ∙ reconcile_pod-handle env (at_pod env serves pod w) h.policy h.completed.listed
      ∙ handle_decides env sorts (at_pod env serves pod w) h.completed.listed
      ∙ rw
          (decide_completed (sorted w) (stored w) c h.completed.class h.completed.named
            h.completed.done)
          refl

  -- A turn that does not panic and sends one eviction, of the pod.
  abbrev pub Evicts : env.World → Type 0
  Evicts w =
      (panics (reconcile_eviction_request env (informed env serves w)) ≡ false)
      × (evictions (turn env serves w).calls ≡ eviction_of pod ∷ [])

  turn-Evicts :
      (w : env.World) (c : String) → IsHandedOver w c → successor (sorted w) c ≡ none → Evicts w
  unfolding act after_completion
  turn-Evicts w c h last =
      rw (turn_decides w c h, last)
        (
          perform_total env (at_pod env serves pod w),
          perform-evicts env (at_pod env serves pod w) pod h.refers.reference (
              rw h.refers.namespace
                (serves.get_pod-Lists _ pod (serves.get_pod-keeps w _ _ pod h.refers.listed))),
        )

  -- The world after the status of the stored object was sent, with another active class.
  abbrev sent : env.World → String → env.World
  sent w n =
      let r = record (stored w) { status = select_class n (stored w).status } in
      (env.update_status (looked_up env serves w pod) r).0

  sent-IsWrite :
      (w : env.World) (n : String)
      → IsWrite (stored w) (select_class n (stored w).status) (stored (sent w n))
  sent-IsWrite w n = (stores env serves w _ _ _ (at_pod-stored env serves pod w) refl).1

  sent-IsHandedOver :
      (w : env.World) (c n : String)
      → IsHandedOver w c
      → n ≢ ""
      → IsHandedOver (sent w n) n × ((stored (sent w n)).spec ≡ (stored w).spec)
  unfolding select_class
  sent-IsHandedOver w c n h named =
      let (version, e) = sent-IsWrite w n in
      (
        record {
          refers = record {
            reference = rw e h.refers.reference;
            namespace = rw e h.refers.namespace;
            listed = serves.update-Lists _ _ pod (serves.get_pod-keeps w _ _ pod h.refers.listed);
          };
          policy = rw e h.policy;
          completed = record {
            listed = rw e h.completed.listed;
            class = rw e refl;
            named = named;
            done = rw e h.completed.done;
          };
          classes = rw e h.classes;
        },
        rw e refl,
      )

  turn_selects :
      (w : env.World) (c : String) (n : Interceptor)
      → IsHandedOver w c
      → successor (sorted w) c ≡ some n
      → IsQuiet env serves w
        × IsHandedOver (turn env serves w).world n.interceptor_class
        × ((stored (turn env serves w).world).spec ≡ (stored w).spec)
  unfolding act after_completion
  turn_selects w c n h next =
      let named =
        h.classes.named n ((Perm.mem_iff (sort-perm env sorts _)).0 (successor-mem _ c next)) in
      let (handed, same) = sent-IsHandedOver w c n.interceptor_class h named in
      let (ok, write) =
        stores env serves w (at_pod env serves pod w).world _ _ (at_pod-stored env serves pod w)
          refl in
      rw (turn_decides w c h, next) ((refl, ap some ok), handed, same)

  -- The turns before the one at `k` are quiet, and that one evicts the pod.
  abbrev pub EvictsAt : ℕ → env.World → Type 0
  EvictsAt k w =
      ((j : ℕ) → j < k → IsQuiet env serves (turns env serves j w)) × Evicts (turns env serves k w)

  pub EvictsAt-suc :
      (k : ℕ) (w : env.World)
      → IsQuiet env serves w
      → EvictsAt k (turn env serves w).world
      → EvictsAt (suc k) w
  unfolding turns
  EvictsAt-suc k w first (quiet, evicts) = (before, evicts)
    where
      before : (j : ℕ) → j < suc k → IsQuiet env serves (turns env serves j w)
      before zero h = first
      before (suc j) h = quiet j (omega arith)

  EvictsAt-from :
      (k : ℕ) (w : env.World) (c : String)
      → remaining (sorted w) c ≡ k
      → IsHandedOver w c
      → EvictsAt k w
  unfolding turns
  EvictsAt-from zero w c left h = elim (Option-cases (successor (sorted w) c)) [
    | inl last ↦ (λ j lt. absurd (omega arith), turn-Evicts w c h last)
    | inr (n, next) ↦
        let more = remaining-successor _ c (sorted-distinct env sorts _ h.classes) next in
        absurd (omega arith)
  ]
  EvictsAt-from (suc k) w c left h = elim (Option-cases (successor (sorted w) c)) [
    | inl last ↦ let end = remaining-last _ c last in absurd (omega arith)
    | inr (n, next) ↦
        let more = remaining-successor _ c (sorted-distinct env sorts _ h.classes) next in
        let (quiet, handed, same) = turn_selects w c n h next in
        EvictsAt-suc k w quiet
          (EvictsAt-from k _ n.interceptor_class (rw same (omega arith)) handed)
  ]

  -- If the stored object has a policy, refers to a pod that the lister gives, has interceptors of
  -- distinct, non-empty classes, and its active one has completed, and if nobody but the controller
  -- writes to it: after fewer turns than there are interceptors, which return nil and send no
  -- eviction, the next turn sends one eviction, of the pod.
  pub turns_evict :
      (w : env.World) (c : String)
      → IsHandedOver w c
      → (k : ℕ) × (k < length (stored w).spec.interceptors) × EvictsAt k w
  turns_evict w c h = (
    remaining (sorted w) c,
    (let few = remaining-lt (sorted w) c (λ e.
          h.completed.listed
            (sym (Perm.nil-eq (rw e at (sort-perm env sorts (stored w).spec.interceptors))))) in
        let same = length-Perm (sort-perm env sorts (stored w).spec.interceptors) in omega arith),
    EvictsAt-from _ w c refl h,
  )
