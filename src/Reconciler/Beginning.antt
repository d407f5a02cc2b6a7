-- ===== src/Reconciler/Beginning.antt =====
-- The first two turns of the control loop on a request that nobody has touched yet, on an API
-- server with versions.
use k8s_eviction_controller.Prelude.{◌≡◌, ◌≢◌, refl, ◌∙◌, eq_iff, true, none, some, [], arith}
use k8s_eviction_controller.Api.{EvictionRequest, EvictionRequestStatus, Interceptor}
use k8s_eviction_controller.Api.Constants.{allow}
use k8s_eviction_controller.Cluster.{Env, Err, Pod, State, returned, result, final, evictions}
use k8s_eviction_controller.Interceptor.{is_unset, select_class, handle}
use k8s_eviction_controller.Interceptor.Order.{IsHighest}
use k8s_eviction_controller.Interceptor.Priority.{SortsSlices}
use k8s_eviction_controller.Interceptor.Selection.{handle-Selects-IsHighest}
use k8s_eviction_controller.Reconciler.{
  reconcile_eviction_request, reconcile_pod, ensure_policy, proceed,
}
use k8s_eviction_controller.Reconciler.Policy.{policy_of}
use k8s_eviction_controller.Reconciler.Repeat.{HasVersions, ensure_policy_stores, answered}
use k8s_eviction_controller.Reconciler.Turns.{reconcile_pod-handle}
use k8s_eviction_controller.Reconciler.Server.{
  IsWrite, Serves, RefersTo, informed, at_pod, at_pod-stored, stores, turn, turn_goes_on,
}

-- Nobody has set a policy or selected an interceptor; interceptors are listed.
pub record IsUntouched (r : EvictionRequest) : Type 0 where
  pub policy : policy_of r ≡ ""
  pub unselected : is_unset r.status.active_interceptor_class ≡ true
  pub listed : r.spec.interceptors ≢ []

abbrev pub with_policy : EvictionRequestStatus → EvictionRequestStatus
with_policy status = record status { eviction_request_cancellation_policy = allow }

module _ (env : Env) where
  ensure_policy-request :
      (s : State env.World)
      → policy_of s.request ≡ ""
      → let u = final (ensure_policy env s) in
        (u.request ≡ record s.request { status = with_policy s.request.status })
        × (u.world ≡ (env.update_status s.world u.request).0)
  unfolding ensure_policy
  ensure_policy-request s p = (
    ground (arith, eq_iff (policy_of s.request) ""),
    ground (arith, eq_iff (policy_of s.request) ""),
  )

  -- Once the policy is stored, a request with interceptors goes to `Handle`.
  reconcile_pod-stored :
      (s u : State env.World)
      → ensure_policy env s ≡ returned none u
      → u.request.spec.interceptors ≢ []
      → reconcile_pod env s ≡ handle env u
  unfolding reconcile_pod proceed
  reconcile_pod-stored s u e h = ground (arith, e)

module _ (env : Env) (sorts : SortsSlices env) (versions : HasVersions env) (serves : Serves env)
    (pod : Pod) where
  open serves use {stored}

  -- With a stale object the selection is refused: its error is returned, and nothing is stored.
  handle_refused :
      (u : State env.World)
      → versions.IsStale u.world u.request.metadata
      → u.request.spec.interceptors ≢ []
      → is_unset u.request.status.active_interceptor_class ≡ true
      → let t = final (handle env u) in
        ((e : Err) × (result (handle env u) ≡ some (some e)))
        × (evictions t.calls ≡ evictions u.calls)
        × (stored t.world ≡ stored u.world)
        × (serves.Lists u.world pod → serves.Lists t.world pod)
  handle_refused u stale listed unset =
      let (x, top, (answer, exit, selected, sent, written)) =
        handle-Selects-IsHighest env sorts u listed unset in
      let no = versions.refused u.world (final (handle env u)).request (rw selected stale) in
      let (e, is_error) = answered env versions answer (rw written at no) in
      (
        (e, rw (exit, is_error) refl),
        rw sent refl,
        let same = serves.update-refused u.world (final (handle env u)).request no in
            rw written at same,
        λ there.
            let lists = serves.update-Lists u.world (final (handle env u)).request pod there in
            rw written at lists,
      )

  -- The first turn stores the policy; the selection that follows it is refused, which is returned,
  -- so that the item is tried again.
  abbrev pub StoresPolicy : env.World → Type 0
  StoresPolicy w =
      let t = turn env serves w in
      ((e : Err) × (result (reconcile_eviction_request env (informed env serves w))
          ≡ some (some e)))
      × (evictions t.calls ≡ [])
      × IsWrite (stored w) (with_policy (stored w).status) (stored t.world)
      × serves.Lists t.world pod

  first_turn : (w : env.World) → RefersTo env serves w pod → IsUntouched (stored w) → StoresPolicy w
  first_turn w refers new =
      let u = final (ensure_policy env (at_pod env serves pod w)) in
      let (request, world) = ensure_policy-request env (at_pod env serves pod w) new.policy in
      let (ok, write) =
        stores env serves w _ u.request _ (at_pod-stored env serves pod w) request in
      let (passes, sent, spec, metadata, stale) =
        ensure_policy_stores env versions (at_pod env serves pod w) new.policy ok in
      let (error, none_sent, kept, lists) =
        handle_refused u stale (rw request new.listed) (rw request new.unselected) in
      let goes_on =
        turn_goes_on env serves w pod refers
        ∙ reconcile_pod-stored env (at_pod env serves pod w) u passes (rw request new.listed) in
      rw goes_on (
        error,
        none_sent ∙ rw sent refl,
        rw (kept, world) write,
        lists
            (rw world (serves.update-Lists _ _ pod (serves.get_pod-keeps w _ _ pod refers.listed))),
      )

  -- A turn on a request with a policy and no active interceptor stores the class of one of the
  -- highest priority.
  abbrev pub StoresHighest : env.World → Type 0
  StoresHighest w =
      let t = turn env serves w in
      (result (reconcile_eviction_request env (informed env serves w)) ≡ some none)
      × (evictions t.calls ≡ [])
      × ((x : Interceptor) × IsHighest (stored w).spec.interceptors x
          × IsWrite (stored w) (select_class x.interceptor_class (stored w).status)
              (stored t.world))

  second_turn :
      (w : env.World)
      → RefersTo env serves w pod
      → policy_of (stored w) ≢ ""
      → is_unset (stored w).status.active_interceptor_class ≡ true
      → (stored w).spec.interceptors ≢ []
      → StoresHighest w
  second_turn w refers policy unset listed =
      let t = final (handle env (at_pod env serves pod w)) in
      let (x, top, (answer, exit, selected, sent, written)) =
        handle-Selects-IsHighest env sorts (at_pod env serves pod w) listed unset in
      let (ok, write) =
        stores env serves w _ t.request _ (at_pod-stored env serves pod w) selected in
      let goes_on =
        turn_goes_on env serves w pod refers
        ∙ reconcile_pod-handle env (at_pod env serves pod w) policy listed in
      rw goes_on (rw (exit, rw written at ok) refl, rw sent refl, (x, top, rw written at write))

  -- A request with interceptors that nobody has touched, whose pod the lister gives, while nobody
  -- but the controller writes to it: the first turn stores the policy Allow and nothing else, since
  -- the selection that follows is refused, and returns that error; the second one stores the class
  -- of an interceptor of the highest priority and returns nil. Neither evicts.
  pub untouched_turns :
      (w : env.World)
      → RefersTo env serves w pod
      → IsUntouched (stored w)
      → StoresPolicy w × StoresHighest (turn env serves w).world
  unfolding is_unset
  untouched_turns w refers new =
      let (error, none_sent, (version, stores_it), lists) = first_turn w refers new in
      (
        (error, none_sent, (version, stores_it), lists),
        second_turn (turn env serves w).world
            (record {
              reference = rw stores_it refers.reference;
              namespace = rw stores_it refers.namespace;
              listed = lists;
            })
            (rw stores_it (λ e. ground (arith, eq_iff allow ""))) (rw stores_it new.unselected)
            (rw stores_it new.listed),
      )
